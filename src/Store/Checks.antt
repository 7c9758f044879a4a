-- ===== src/Store/Checks.antt =====
-- ports/store.ts: the assertions on what callers hand to a store.
use mcp_sso.Common.{
  ℕ, String, List, [], ◌∷◌, Option, none, some, Bool, true, false, not, ◌&&◌, ◌==◌, codes, trim,
  is_digit, is_hex, is_base64url, nat_eq, leb, ltb, all, length, if◌then◌else◌,
}
use mcp_sso.Errors.{Thrown, Result, ok, err, store_input, require, ◌>>◌}
use mcp_sso.Subject.{identity_subject}
use mcp_sso.Store.{
  Generation, omitted, null, number, AuthCodeRecord, SaveRefreshTokenInput,
  stored_dcr_grant_generation, unbound_refresh_resource,
}

abbrev pub max_safe_integer : ℕ
max_safe_integer = 9_007_199_254_740_991

-- `` `${label} …` ``
abbrev labelled : String → String → Thrown
labelled label text = store_input (Prim.Native.String.◌++◌ label text)

abbrev as_store_subject : String → Result String → Result (Unit {0})
as_store_subject label (ok s) = ok tt
as_store_subject label (err e) = err (labelled label " is malformed")

unfoldable pub assert_store_subject : String → String → Result (Unit {0})
assert_store_subject value label = as_store_subject label (identity_subject value)

-- /^[A-Za-z0-9_-]{22,128}$/
unfoldable pub is_store_instance_id : String → Bool
unfolding all
is_store_instance_id value =
    let cs = codes value in leb 22 (length cs) && leb (length cs) 128 && all is_base64url cs

unfoldable pub assert_store_instance_id : String → Result (Unit {0})
assert_store_instance_id value =
    require (is_store_instance_id value)
      (store_input "store instance id must be 22-128 base64url characters")

-- /^[a-f0-9]{64}$/i
unfoldable pub is_sha256_hex : String → Bool
unfolding all
is_sha256_hex value = let cs = codes value in nat_eq (length cs) 64 && all is_hex cs

unfoldable pub assert_sha256_hex : String → String → Result (Unit {0})
assert_sha256_hex value label =
    require (is_sha256_hex value) (labelled label " must be a SHA-256 hex digest")

-- A pattern that gives one class of characters for each place.
unfoldable pub matches_shape : List (ℕ → Bool) → List ℕ → Bool
matches_shape [] [] = true
matches_shape (p ∷ ps) (c ∷ cs) = p c && matches_shape ps cs
matches_shape _ _ = false

-- /^\d{4}-\d{2}-\d{2}T\d{2}:\d{2}:\d{2}\.\d{3}Z$/
abbrev iso_shape : List (ℕ → Bool)
iso_shape =
    is_digit
    ∷ is_digit
    ∷ is_digit
    ∷ is_digit
    ∷ (λ c. nat_eq c b'-')
    ∷ is_digit
    ∷ is_digit
    ∷ (λ c. nat_eq c b'-')
    ∷ is_digit
    ∷ is_digit
    ∷ (λ c. nat_eq c b'T')
    ∷ is_digit
    ∷ is_digit
    ∷ (λ c. nat_eq c b':')
    ∷ is_digit
    ∷ is_digit
    ∷ (λ c. nat_eq c b':')
    ∷ is_digit
    ∷ is_digit
    ∷ (λ c. nat_eq c b'.')
    ∷ is_digit
    ∷ is_digit
    ∷ is_digit
    ∷ (λ c. nat_eq c b'Z')
    ∷ []

unfoldable pub is_utc_iso : String → Bool
unfolding matches_shape
is_utc_iso value = matches_shape iso_shape (codes value)

unfoldable pub assert_utc_iso_timestamp : String → String → Result (Unit {0})
assert_utc_iso_timestamp value label = require (is_utc_iso value) (
    labelled label
      " must be a UTC ISO timestamp with exactly 3 ms digits (e.g. 2026-07-03T13:00:00.000Z)")

-- A positive safe integer.
abbrev pub is_positive_safe : ℕ → Bool
is_positive_safe n = ltb 0 n && leb n max_safe_integer

unfoldable pub assert_grant_generation : Generation → String → Result (Unit {0})
assert_grant_generation omitted label = ok tt
assert_grant_generation null label = ok tt
assert_grant_generation (number n) label =
    require (is_positive_safe n) (labelled label " must be a positive safe integer or null")

-- `value.trim().length === 0`
abbrev is_blank : String → Bool
is_blank value = nat_eq (length (trim (codes value))) 0

unfoldable pub assert_refresh_resource : Option String → String → Result (Unit {0})
unfolding trim
assert_refresh_resource none label = err (labelled label " must be a non-empty resource string")
assert_refresh_resource (some value) label =
    require (not (is_blank value)) (labelled label " must be a non-empty resource string")

unfoldable pub refresh_resource_from_stored : Option String → Option String
unfolding trim
refresh_resource_from_stored none = none
refresh_resource_from_stored (some value) = if is_blank value then none else some value

unfoldable pub grant_generation_from_stored : Generation → Generation
grant_generation_from_stored (number n) = if is_positive_safe n then number n else null
grant_generation_from_stored _ = null

unfoldable pub grant_generation_for_write : Generation → Generation
unfolding grant_generation_from_stored
grant_generation_for_write omitted = number stored_dcr_grant_generation
grant_generation_for_write g = grant_generation_from_stored g

abbrev normalized : SaveRefreshTokenInput → Option String → Result SaveRefreshTokenInput
normalized input none = ok (record input { resource = some unbound_refresh_resource })
normalized input (some r) = do
  assert_refresh_resource (some r) "resource"
  require (not (r == unbound_refresh_resource))
      (store_input "resource is reserved for unbound legacy writes")
  ok input

unfoldable pub normalize_refresh_token_write : SaveRefreshTokenInput → Result SaveRefreshTokenInput
normalize_refresh_token_write input = normalized input input.resource

unfoldable pub validate_auth_code : AuthCodeRecord → Result (Unit {0})
validate_auth_code input = do
  assert_store_subject input.subject "subject"
  assert_sha256_hex input.code_hash "codeHash"
  assert_utc_iso_timestamp input.expires_at "expiresAt"
  assert_grant_generation input.grant_generation "grantGeneration"
  require (input.code_challenge_method == "S256") (store_input "codeChallengeMethod must be S256")

abbrev pub assert_previous : Option String → Result (Unit {0})
assert_previous none = ok tt
assert_previous (some hash) = assert_sha256_hex hash "previousTokenHash"

unfoldable pub validate_refresh_token : SaveRefreshTokenInput → Bool → Result (Unit {0})
validate_refresh_token input validate_subject = do
  if validate_subject then assert_store_subject input.subject "subject" else ok tt
  assert_sha256_hex input.token_hash "tokenHash"
  assert_previous input.previous_token_hash
  assert_refresh_resource input.resource "resource"
  assert_utc_iso_timestamp input.expires_at "expiresAt"
  assert_grant_generation input.grant_generation "grantGeneration"

abbrev is_hash : Option String → String → Bool
is_hash none hash = false
is_hash (some h) hash = h == hash

unfoldable pub validate_rotation : String → SaveRefreshTokenInput → String → Result (Unit {0})
validate_rotation token_hash next now_iso = do
  assert_sha256_hex token_hash "tokenHash"
  validate_refresh_token next false
  assert_utc_iso_timestamp now_iso "nowIso"
  require (is_hash next.previous_token_hash token_hash)
      (store_input "next.previousTokenHash must match tokenHash")
