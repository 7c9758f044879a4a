-- ===== src/Consent.antt =====
-- crypto.ts: the claims of a consent token, as they are signed and as they are read back.
-- The JWT library's signing and verification are fields of the platform, with the key, the issuer, the
-- audience and the times inside them.
use mcp_sso.Common.{
  ℕ, ◌+◌, ◌*◌, ◌/◌, String, List, [], Option, none, some, Bool, true, false, ◌==◌, codes, leb,
  utf8_length, if◌then◌else◌,
}
use mcp_sso.Errors.{Thrown, Result, ok, err, plain, oauth_error, ◌>>=◌, ◌>>◌}
use mcp_sso.Subject.{identity_subject}
use mcp_sso.Scopes.{scope_string, split_spaces, trim_text}
use mcp_sso.Clock.{finite_clock_snapshot, numeric_date_iso}
use mcp_sso.Cimd.Json.{Json, boolean, number, text, Members, no_members, member, own}

pub record ConsentRequestClaims : Type 0 where
  pub client_id : String
  pub redirect_uri : String
  pub resource : String
  pub scopes : List String
  pub code_challenge : String
  pub state : Option String
  pub subject : String
  pub allowed_scopes : Option (List String)
  pub store_instance_id : Option String
  pub cimd_verified : Bool

-- The claims read back, with the token's own id and expiry.
pub record Consent : Type 0 where
  pub claims : ConsentRequestClaims
  pub open claims use *
  pub jti : String
  pub expires_at : String

pub record JwtPlatform : Type 0 where
  -- The payload, and the seconds it is issued and expires at.
  pub sign : Members → (issued expires : ℕ) → String
  pub verify : String → (now : ℕ) → Option Members
  pub iso : ℕ → String

abbrev pub consent_typ : String
consent_typ = "mcp-sso-consent"

abbrev pub max_consent_token_bytes : ℕ
max_consent_token_bytes = 196608

abbrev pub invalid_consent : Thrown
invalid_consent = oauth_error "invalid_consent" "Consent token is invalid or expired" 400

-- A member that is undefined is not signed.
abbrev optional_text : String → Option String → Members → Members
optional_text key none ms = ms
optional_text key (some s) ms = member key (text s) ms

abbrev ceiling_text : Option (List String) → Option String
ceiling_text none = none
ceiling_text (some scopes) = some (scope_string scopes)

abbrev provenance : Bool → Members
provenance true = member "cimd_verified" (boolean true) no_members
provenance false = no_members

unfoldable pub consent_payload : ConsentRequestClaims → (subject jti : String) → Members
consent_payload c subject jti = member "typ" (text consent_typ) (
    member "sub" (text subject) (
      member "jti" (text jti) (
        member "client_id" (text c.client_id) (
          member "redirect_uri" (text c.redirect_uri) (
            member "resource" (text c.resource) (
              member "scope" (text (scope_string c.scopes)) (
                member "code_challenge" (text c.code_challenge) (
                  member "code_challenge_method" (text "S256") (
                    optional_text "state" c.state (
                      optional_text "allowed_scopes" (ceiling_text c.allowed_scopes) (
                        optional_text "store_instance" c.store_instance_id
                          (provenance c.cimd_verified))))))))))))

abbrev if_small : String → Result String
if_small token =
    if leb (utf8_length (codes token)) max_consent_token_bytes
    then ok token
    else err (oauth_error "invalid_request" "Authorization request is too large" 400)

-- `signConsentToken` of claims that name their store instance; the token's id is an argument.
unfoldable pub sign_consent_token :
    JwtPlatform
    → ConsentRequestClaims
    → (clock : Option ℕ) → (ttl_seconds : ℕ) → (jti : String) → Result String
unfolding consent_payload utf8_length
sign_consent_token jwt c clock ttl_seconds jti = do
  subject ← identity_subject c.subject
  now ← finite_clock_snapshot clock (ttl_seconds * 1000)
  if_small (jwt.sign (consent_payload c subject jti) (now / 1000) (now / 1000 + ttl_seconds))

-- `requiredString`
abbrev required_string : String → Option Json → Result String
required_string label (some (text s)) = if s == "" then err (plain label) else ok s
required_string label _ = err (plain label)

-- `primitiveString`
abbrev primitive_string : String → Option Json → Result String
primitive_string label (some (text s)) = ok s
primitive_string label _ = err (plain label)

-- `stringClaim`
abbrev string_claim : Option Json → Option String
string_claim (some (text s)) = if s == "" then none else some s
string_claim _ = none

abbrev claim_scopes : Option Json → List String
claim_scopes (some (text s)) = if s == "" then [] else split_spaces s
claim_scopes _ = []

abbrev claim_ceiling : Option Json → Option (List String)
claim_ceiling (some (text s)) =
    if s == "" then some [] else if trim_text s == "" then none else some (split_spaces s)
claim_ceiling _ = none

-- `cimdVerifiedClaim`: any present value but true invalidates the token.
abbrev cimd_verified_claim : Option Json → Result Bool
cimd_verified_claim none = ok false
cimd_verified_claim (some (boolean true)) = ok true
cimd_verified_claim (some _) = err (plain "cimd_verified must be true when present")

abbrev is_consent : Option Json → Result (Unit {0})
is_consent (some (text s)) = if s == consent_typ then ok tt else err (plain "wrong token type")
is_consent _ = err (plain "wrong token type")

unfoldable pub consent_claims : Members → Result ConsentRequestClaims
unfolding own split_spaces trim_text
consent_claims payload = do
  is_consent (own "typ" payload)
  client_id ← required_string "missing client_id" (own "client_id" payload)
  redirect_uri ← primitive_string "missing redirect_uri" (own "redirect_uri" payload)
  resource ← required_string "missing resource" (own "resource" payload)
  code_challenge ← required_string "missing code_challenge" (own "code_challenge" payload)
  sub ← required_string "missing sub" (own "sub" payload)
  subject ← identity_subject sub
  cimd_verified ← cimd_verified_claim (own "cimd_verified" payload)
  ok (record {
    client_id = client_id;
    redirect_uri = redirect_uri;
    resource = resource;
    scopes = claim_scopes (own "scope" payload);
    code_challenge = code_challenge;
    state = string_claim (own "state" payload);
    subject = subject;
    allowed_scopes = claim_ceiling (own "allowed_scopes" payload);
    store_instance_id = string_claim (own "store_instance" payload);
    cimd_verified = cimd_verified;
  })

abbrev numeric_claim : (iso : ℕ → String) → Option Json → Result String
numeric_claim iso (some (number n)) = numeric_date_iso iso n
numeric_claim iso _ = err (plain "invalid exp")

abbrev read_payload : JwtPlatform → Option Members → Result Consent
read_payload jwt none = err invalid_consent
read_payload jwt (some payload) = do
  claims ← consent_claims payload
  jti ← required_string "missing jti" (own "jti" payload)
  expires_at ← numeric_claim jwt.iso (own "exp" payload)
  ok (record { claims = claims; jti = jti; expires_at = expires_at })

-- Every failure of `verifyConsentToken` is the one refusal.
abbrev or_invalid_consent : Result Consent → Result Consent
or_invalid_consent (ok c) = ok c
or_invalid_consent (err e) = err invalid_consent

unfoldable pub verify_consent_token : JwtPlatform → String → (now : ℕ) → Result Consent
unfolding consent_claims numeric_date_iso own
verify_consent_token jwt token now = or_invalid_consent (read_payload jwt (jwt.verify token now))
