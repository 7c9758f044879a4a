-- ===== src/Token/Env.antt =====
-- What the token use case reads of its environment: configuration, hashes and signatures, and the
-- parts of stored-dcr-generation.ts, port-result.ts and crypto.ts that stand between it and them.
-- Functions of the platform are fields: SHA-256 in hex and in base64url, the signing of an access
-- token, which may throw, and the printing of an instant as an ISO timestamp.
use mcp_sso.Common.{
  ℕ, String, List, [], ◌∷◌, Option, none, some, Bool, true, false, not, ◌&&◌, ◌||◌, ◌==◌, codes,
  is_base64url, nat_eq, leb, length, all, if◌then◌else◌,
}
use mcp_sso.Errors.{Result, ok, err, oauth_error, type_error, ◌>>=◌}
use mcp_sso.Subject.{identity_subject}
use mcp_sso.Store.{
  Generation, number, AuthCodeRecord, RefreshTokenRecord, stored_dcr_grant_generation,
}
use mcp_sso.Store.Checks.{is_positive_safe}
use mcp_sso.Scopes.{access_scope_string, max_scope_entries}
use mcp_sso.Redirect.Entry.{Url}

pub data DcrMode : Type 0 where
  stateless stored_dcr : DcrMode

-- The members of BridgeConfig that the grants read.
pub record BridgeConfig : Type 0 where
  pub resource : String
  pub scope_catalog : List String
  pub dcr_mode : DcrMode
  pub access_token_ttl_seconds : ℕ
  pub refresh_token_ttl_seconds : ℕ

pub record Platform : Type 0 where
  pub sha256_hex : String → String
  pub pkce_challenge : String → String
  pub sign : (subject client_id scope : String) (now : ℕ) → Result String
  pub iso : ℕ → String
  pub parse_url : String → Option Url

unfoldable pub expected_generation : BridgeConfig → Option ℕ
expected_generation config = elim config.dcr_mode [
  | stateless ↦ none
  | stored_dcr ↦ some stored_dcr_grant_generation
]

-- `requiredStr`
unfoldable pub required : Option String → String → Result String
required none label =
    err (oauth_error "invalid_request" (Prim.Native.String.◌++◌ label " is required") 400)
required (some value) label =
    if value == ""
    then err (oauth_error "invalid_request" (Prim.Native.String.◌++◌ label " is required") 400)
    else ok value

-- The part of a text up to the first dot, and what follows it.
unfoldable pub split_dots : String → List String
split_dots String.[] = "" ∷ []
split_dots (String.◌∷◌ c s) =
    let rest = split_dots s in
    if nat_eq (Prim.Native.Char.code c) b'.' then "" ∷ rest else push c rest
  where
    push : Prim.Native.Char.Char → List String → List String
    push c [] = String.◌∷◌ c String.[] ∷ []
    push c (w ∷ ws) = String.◌∷◌ c w ∷ ws

-- /^[A-Za-z0-9_-]{16,}$/
unfoldable pub is_family_id : String → Bool
unfolding all
is_family_id family = let cs = codes family in leb 16 (length cs) && all is_base64url cs

abbrev family_of : List String → Option String
family_of (prefix ∷ family ∷ secret ∷ []) =
    if prefix == "rt" && is_family_id family then some family else none
family_of _ = none

unfoldable pub parse_refresh_family_id : String → Option String
unfolding split_dots is_family_id
parse_refresh_family_id token = family_of (split_dots token)

-- `generateRefreshToken(familyId)`, whose random parts are arguments.
unfoldable pub generate_refresh_token : (family secret : String) → String
generate_refresh_token family secret =
    Prim.Native.String.◌++◌ "rt."
      (Prim.Native.String.◌++◌ family (Prim.Native.String.◌++◌ "." secret))

-- [A-Za-z0-9._~-]
abbrev is_verifier_code : ℕ → Bool
is_verifier_code c = is_base64url c || nat_eq c b'.' || nat_eq c b'~'

unfoldable pub verify_pkce_s256 : Platform → (verifier challenge : String) → Bool
unfolding all
verify_pkce_s256 platform verifier challenge =
    leb 43 (length (codes verifier))
    && leb (length (codes verifier)) 128
    && all is_verifier_code (codes verifier)
    && nat_eq (length (codes challenge)) 43
    && all is_base64url (codes challenge)
    && platform.pkce_challenge verifier == challenge

abbrev non_empty : String → Bool
non_empty s = not (s == "")

abbrev is_subject : Result String → Bool
is_subject (ok s) = true
is_subject (err e) = false

abbrev valid_generation : Generation → Bool
valid_generation (number n) = is_positive_safe n
valid_generation _ = true

-- `validAuthCodeSnapshot`. A field of the wrong type cannot be written here.
unfoldable pub valid_auth_code_snapshot : AuthCodeRecord → Bool
valid_auth_code_snapshot c =
    non_empty c.code_hash
    && non_empty c.client_id
    && is_subject (identity_subject c.subject)
    && non_empty c.redirect_uri
    && non_empty c.resource
    && non_empty c.code_challenge
    && c.code_challenge_method == "S256"
    && non_empty c.expires_at
    && leb (length c.scopes) max_scope_entries
    && valid_generation c.grant_generation

-- `snapshotAuthCodeRecord`: a malformed record is no record.
unfoldable pub snapshot_auth_code : Option AuthCodeRecord → Option AuthCodeRecord
snapshot_auth_code none = none
snapshot_auth_code (some c) = if valid_auth_code_snapshot c then some c else none

abbrev none_or_full : Option String → Bool
none_or_full none = true
none_or_full (some s) = non_empty s

unfoldable pub valid_refresh_snapshot : RefreshTokenRecord → Bool
valid_refresh_snapshot t =
    non_empty t.token_hash
    && non_empty t.family_id
    && none_or_full t.previous_token_hash
    && non_empty t.client_id
    && is_subject (identity_subject t.subject)
    && none_or_full t.resource
    && non_empty t.expires_at
    && leb (length t.scopes) max_scope_entries
    && valid_generation t.grant_generation

-- `snapshotRefreshTokenRecord`: a malformed record throws.
unfoldable pub snapshot_refresh_token :
    Option RefreshTokenRecord → Result (Option RefreshTokenRecord)
snapshot_refresh_token none = ok none
snapshot_refresh_token (some t) =
    if valid_refresh_snapshot t
    then ok (some t)
    else err (type_error "StorePort returned a malformed refresh-token record")

-- `signAccessToken`: the checks of the scopes and the subject come before the signature.
unfoldable pub sign_access_token :
    Platform → (subject client_id : String) → List String → (now : ℕ) → Result String
sign_access_token platform subject client_id scopes now = do
  scope ← access_scope_string scopes
  checked ← identity_subject subject
  platform.sign checked client_id scope now
