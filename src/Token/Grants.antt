-- ===== src/Token/Grants.antt =====
-- token.ts, token-revoke.ts and rotateRefreshTokenSnapshot of port-result.ts: the grants.
-- An instant is a number of milliseconds that finiteClockSnapshot accepts: an unusable clock throws
-- before a grant touches the store. Random parts are arguments. Audit writes are left out, since
-- writeAuditBestEffort lets them change neither the result nor the store.
use mcp_sso.Common.{
  ℕ, ◌+◌, ◌*◌, String, List, [], Option, none, some, Bool, true, false, not, ◌&&◌, ◌==◌, is_text,
  if◌then◌else◌,
}
use mcp_sso.Errors
use mcp_sso.Errors.{Thrown, Result, ok, err, oauth_error, require, call_port}
use mcp_sso.Exec.{pure, lift, handle, ◌>>=◌, ◌>>◌}
use mcp_sso.Subject.{is_machine_subject}
use mcp_sso.Store.{
  AuthCodeRecord, RefreshTokenRecord, SaveRefreshTokenInput, omitted, meets_generation,
}
use mcp_sso.Store.Memory.State.{MemoryStore, Op}
use mcp_sso.Store.Memory.Codes.{consume_auth_code}
use mcp_sso.Store.Memory.Tokens.{
  save_refresh_token, revoke_refresh_token_family, find_refresh_token,
}
use mcp_sso.Store.Memory.Rotation.{rotate_refresh_token}
use mcp_sso.Scopes.{stored_scopes, scope_string}
use mcp_sso.Redirect.Policy.{assert_oauth_redirect_entry}
use mcp_sso.Token.Env.{
  BridgeConfig, Platform, expected_generation, required, parse_refresh_family_id,
  generate_refresh_token, verify_pkce_s256, snapshot_auth_code, snapshot_refresh_token,
  sign_access_token,
}

pub record AuthorizationCodeGrantInput : Type 0 where
  pub grant_type : Option String
  pub code : Option String
  pub redirect_uri : Option String
  pub client_id : Option String
  pub code_verifier : Option String

pub record RefreshGrantInput : Type 0 where
  pub grant_type : Option String
  pub refresh_token : Option String
  pub client_id : Option String

pub record UserTokenResponse : Type 0 where
  pub access_token : String
  pub expires_in : ℕ
  pub refresh_token : String
  pub scope : String

-- `callPort("StorePort", operation, invoke)` on an action of the store.
abbrev pub port {ℓ} : {A : Type ℓ} → String → Result A × MemoryStore → Result A × MemoryStore
port operation (r, s) = (call_port "StorePort" operation r, s)

abbrev pub invalid_grant : String → Thrown
invalid_grant message = oauth_error "invalid_grant" message 400

abbrev pub bad_code : Thrown
bad_code = invalid_grant "Authorization code is invalid"

abbrev pub bad_refresh : Thrown
bad_refresh = invalid_grant "Refresh token is invalid"

abbrev pub reserved : Thrown
reserved = invalid_grant "Grant subject uses the reserved machine-client namespace"

abbrev is_ok {ℓ} : {A : Type ℓ} → Result A → Bool
is_ok (ok a) = true
is_ok (err e) = false

abbrev or_throw {ℓ} : {A : Type ℓ} → Thrown → Option A → Result A
or_throw e none = err e
or_throw e (some a) = ok a

abbrev pub then_throw {ℓ} :
    {A : Type ℓ} → Thrown → Result (Unit {0}) × MemoryStore → Result A × MemoryStore
then_throw e (ok _, s) = (err e, s)
then_throw e (err x, s) = (err x, s)

module _ (platform : Platform) (config : BridgeConfig) where
  -- `tokenResponse`
  unfoldable pub token_response :
      (subject client_id : String)
      → List String
      → (refresh_token : String) → ℕ
      → Result (UserTokenResponse × List String)
  token_response subject client_id scopes refresh_token now =
      Errors.◌>>=◌ (stored_scopes scopes config.scope_catalog) λ granted.
        Errors.◌>>=◌ (sign_access_token platform subject client_id granted now) λ access. ok (
          record {
            access_token = access;
            expires_in = config.access_token_ttl_seconds;
            refresh_token = refresh_token;
            scope = scope_string granted;
          },
          granted,
        )

  -- The tests of `consumeValidCode` on the record that the store returned.
  abbrev pub is_of_deployment : AuthCodeRecord → Bool
  is_of_deployment c =
      meets_generation (expected_generation config) c.grant_generation
      && c.resource == config.resource

  abbrev pub has_good_entry : AuthCodeRecord → Bool
  has_good_entry c = is_ok (assert_oauth_redirect_entry platform.parse_url c.redirect_uri)

  abbrev pub is_asked_by : AuthorizationCodeGrantInput → AuthCodeRecord → Bool
  is_asked_by input c =
      is_text input.client_id c.client_id && is_text input.redirect_uri c.redirect_uri

  abbrev pub with_verifier : AuthCodeRecord → (verifier : String) → Result AuthCodeRecord
  with_verifier c verifier =
      Errors.◌>>◌ (require (verify_pkce_s256 platform verifier c.code_challenge) bad_code) (ok c)

  abbrev pub check_verifier : AuthorizationCodeGrantInput → AuthCodeRecord → Result AuthCodeRecord
  check_verifier input c =
      Errors.◌>>=◌ (required input.code_verifier "code_verifier") (with_verifier c)

  abbrev pub check_asked : AuthorizationCodeGrantInput → AuthCodeRecord → Result AuthCodeRecord
  check_asked input c =
      Errors.◌>>◌ (require (is_asked_by input c) bad_code) (check_verifier input c)

  abbrev pub check_entry : AuthorizationCodeGrantInput → AuthCodeRecord → Result AuthCodeRecord
  check_entry input c = Errors.◌>>◌ (require (has_good_entry c) bad_code) (check_asked input c)

  unfoldable pub check_code :
      AuthorizationCodeGrantInput → Option AuthCodeRecord → Result AuthCodeRecord
  unfolding expected_generation
  check_code input none = err bad_code
  check_code input (some c) =
      Errors.◌>>◌ (require (is_of_deployment c) bad_code) (check_entry input c)

  -- The consumption, named by the hash of the code.
  abbrev pub consumed : (code : String) → ℕ → Op (Option AuthCodeRecord)
  consumed code now s = port "consumeAuthCode" (
      consume_auth_code (platform.sha256_hex code) (platform.iso now) (expected_generation config)
        (some config.resource) s)

  abbrev pub check_found : AuthorizationCodeGrantInput → Option AuthCodeRecord → Op AuthCodeRecord
  check_found input found = lift (check_code input (snapshot_auth_code found))

  abbrev pub redeem : AuthorizationCodeGrantInput → ℕ → (code : String) → Op AuthCodeRecord
  redeem input now code = consumed code now >>= check_found input

  unfoldable pub consume_valid_code : AuthorizationCodeGrantInput → ℕ → Op AuthCodeRecord
  unfolding expected_generation
  consume_valid_code input now = lift (required input.code "code") >>= redeem input now

  -- The refresh token that is saved with a new family.
  abbrev pub first_token :
      AuthCodeRecord → List String → (raw family : String) → ℕ → SaveRefreshTokenInput
  first_token c scopes raw family now = record {
    token_hash = platform.sha256_hex raw;
    family_id = family;
    previous_token_hash = none;
    client_id = c.client_id;
    subject = c.subject;
    resource = some c.resource;
    scopes = scopes;
    expires_at = platform.iso (now + config.refresh_token_ttl_seconds * 1000);
    grant_generation = c.grant_generation;
  }

  abbrev pub save_first :
      AuthCodeRecord
      → (raw : String) → ℕ
      → (family : String) → UserTokenResponse × List String
      → Op UserTokenResponse
  save_first c raw now family (response, scopes) = do
    λ s. port "saveRefreshToken" (save_refresh_token (first_token c scopes raw family now) s)
    pure response

  abbrev pub respond :
      AuthCodeRecord → (raw : String) → ℕ → (family : String) → Op UserTokenResponse
  respond c raw now family =
      lift (token_response c.subject c.client_id c.scopes raw now) >>= save_first c raw now family

  abbrev pub family_of_new : (raw : String) → Result String
  family_of_new raw =
      or_throw (oauth_error "server_error" "Refresh token generation failed" 500)
        (parse_refresh_family_id raw)

  abbrev pub issue_checked : AuthCodeRecord → (raw : String) → ℕ → Unit {0} → Op UserTokenResponse
  issue_checked c raw now _ = lift (family_of_new raw) >>= respond c raw now

  -- What follows the consumption of the code.
  unfoldable pub issue_tokens : AuthCodeRecord → (raw : String) → ℕ → Op UserTokenResponse
  issue_tokens c raw now =
      lift (require (not (is_machine_subject c.subject)) reserved) >>= issue_checked c raw now

  abbrev pub exchange_from :
      AuthorizationCodeGrantInput → (family secret : String) → ℕ → Unit {0} → Op UserTokenResponse
  exchange_from input family secret now _ = do
    c ← consume_valid_code input now
    issue_tokens c (generate_refresh_token family secret) now

  unfoldable pub exchange_authorization_code :
      AuthorizationCodeGrantInput → (family secret : String) → ℕ → Op UserTokenResponse
  unfolding consume_valid_code issue_tokens
  exchange_authorization_code input family secret now =
      lift (
        require (is_text input.grant_type "authorization_code")
          (oauth_error "unsupported_grant_type" "grant_type is not supported" 400))
      >>= exchange_from input family secret now

  abbrev or_empty : Option String → String
  or_empty none = ""
  or_empty (some s) = s

  -- The successor that `refresh` hands to the store.
  abbrev pub next_token :
      RefreshGrantInput → (raw next_raw family : String) → ℕ → SaveRefreshTokenInput
  next_token input raw next_raw family now = record {
    token_hash = platform.sha256_hex next_raw;
    family_id = family;
    previous_token_hash = some (platform.sha256_hex raw);
    client_id = or_empty input.client_id;
    subject = "";
    resource = some config.resource;
    scopes = [];
    expires_at = platform.iso (now + config.refresh_token_ttl_seconds * 1000);
    grant_generation = omitted;
  }

  -- `revokeRefreshTokenFamily(familyId, rotatedAtIso)`, then the error goes on.
  unfoldable pub revoke_and_throw {ℓ} :
      {A : Type ℓ} → (family : String) → ℕ → Thrown → MemoryStore → Result A × MemoryStore
  revoke_and_throw family now e s = then_throw e (
      port "revokeRefreshTokenFamily"
        (revoke_refresh_token_family family (platform.iso now) none s))

  abbrev snapshot_result :
      Result (Option RefreshTokenRecord) × MemoryStore
      → Result (Option RefreshTokenRecord) × MemoryStore
  snapshot_result (r, s) = (Errors.◌>>=◌ r snapshot_refresh_token, s)

  -- `rotateRefreshTokenSnapshot`
  unfoldable pub rotate_refresh_token_snapshot :
      (raw : String)
      → SaveRefreshTokenInput
      → (family : String) → ℕ
      → Op (Option RefreshTokenRecord)
  unfolding revoke_and_throw expected_generation
  rotate_refresh_token_snapshot raw next family now s = handle (revoke_and_throw family now) (
      port "rotateRefreshToken" (
        snapshot_result (
          rotate_refresh_token (platform.sha256_hex raw) next (platform.iso now)
            (expected_generation config) (some config.resource) s)))

  -- The tests of `refresh` on the rotated record, and its response.
  unfoldable pub check_rotated :
      RefreshGrantInput → RefreshTokenRecord → (next_raw : String) → ℕ → Result UserTokenResponse
  unfolding expected_generation token_response
  check_rotated input t next_raw now =
      Errors.◌>>◌
        (require
          (meets_generation (expected_generation config) t.grant_generation
            && is_text t.resource config.resource)
          bad_refresh)
        (Errors.◌>>◌
          (require (not (or_empty input.client_id == "") && is_text input.client_id t.client_id)
            (invalid_grant "Refresh token client binding is invalid"))
          (Errors.◌>>◌ (require (not (is_machine_subject t.subject)) reserved) (
            Errors.◌>>=◌ (token_response t.subject t.client_id t.scopes next_raw now)
              λ (response, scopes). ok response)))

  -- What follows the rotation.
  unfoldable pub answer_rotated :
      RefreshGrantInput
      → Option RefreshTokenRecord
      → (next_raw family : String) → ℕ
      → Op UserTokenResponse
  unfolding check_rotated revoke_and_throw
  answer_rotated input none next_raw family now s = (err bad_refresh, s)
  answer_rotated input (some t) next_raw family now s =
      handle (revoke_and_throw family now) (check_rotated input t next_raw now, s)

  unfoldable pub refresh : RefreshGrantInput → (secret : String) → ℕ → Op UserTokenResponse
  unfolding rotate_refresh_token_snapshot answer_rotated
  refresh input secret now = do
    lift (
        require (is_text input.grant_type "refresh_token")
          (oauth_error "unsupported_grant_type" "grant_type is not supported" 400))
    raw ← lift (required input.refresh_token "refresh_token")
    family ← lift (or_throw bad_refresh (parse_refresh_family_id raw))
    let next_raw = generate_refresh_token family secret
    rotated ←
        rotate_refresh_token_snapshot raw (next_token input raw next_raw family now) family now
    answer_rotated input rotated next_raw family now

  -- The family of a token that the deployment's resource owns.
  abbrev owned : Option RefreshTokenRecord → Option String
  owned none = none
  owned (some t) = if is_text t.resource config.resource then some t.family_id else none

  abbrev revoke_owned : ℕ → Option String → Op (Unit {0})
  revoke_owned now none = pure tt
  revoke_owned now (some family) = λ s.
      port "revokeRefreshTokenFamily"
        (revoke_refresh_token_family family (platform.iso now) (some config.resource) s)

  -- `revokeRefreshToken` of a token that is not empty.
  unfoldable pub revoke_presented : (raw : String) → ℕ → Op (Unit {0})
  revoke_presented raw now = do
    found ← λ s.
        port "findRefreshToken" (snapshot_result (find_refresh_token (platform.sha256_hex raw) s))
    revoke_owned now (owned found)

  unfoldable pub revoke_refresh_token : Option String → ℕ → Op (Unit {0})
  unfolding revoke_presented
  revoke_refresh_token none now = pure tt
  revoke_refresh_token (some raw) now = if raw == "" then pure tt else revoke_presented raw now
