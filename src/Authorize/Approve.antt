-- ===== src/Authorize/Approve.antt =====
-- authorize.ts: approve(). The clock is read at the start and again before the commit; the code's random
-- part is an argument. Audit writes are left out: they change neither the result nor the store.
use mcp_sso.Common.{
  ℕ, ◌*◌, String, List, [], ◌∷◌, ◌++◌, Option, none, some, Bool, ◌==◌, is_text, includes, keep_if,
  leb, text_lt, if◌then◌else◌,
}
use mcp_sso.Errors
use mcp_sso.Errors.{Result, ok, err, oauth_error, range_error, require}
use mcp_sso.Exec.{pure, lift, ◌>>=◌, ◌>>◌}
use mcp_sso.Scopes.{stored_scopes, assert_allowed_scopes_ceiling, push_new}
use mcp_sso.Clock.{finite_clock_snapshot, expires_at_iso}
use mcp_sso.Consent.{Consent, verify_consent_token, invalid_consent}
use mcp_sso.Redirect.Policy.{assert_oauth_redirect_entry}
use mcp_sso.Store.{
  SaveAuthCodeInput, ConsentApprovalCommitResult, stored, replayed, binding_mismatch,
}
use mcp_sso.Store.Memory.State.{Op}
use mcp_sso.Store.Memory.Codes.{commit_consent_approval}
use mcp_sso.Token.Env.{required}
use mcp_sso.Token.Grants.{port}
use mcp_sso.Authorize.Env.{AuthorizeConfig, AuthorizePlatform, new_grant_generation}
use mcp_sso.Authorize.Client.{
  assert_approve_cimd_gate, assert_current_consent_redirect, assert_approve_origin,
}
use mcp_sso.Authorize.Prepare.{narrowed, store_instance_id, prior_grants}

-- `approved` is whether the input's member is true itself.
pub record ApproveInput : Type 0 where
  pub consent_token : Option String
  pub approved : Bool
  pub site : Option String

pub record ApproveResult : Type 0 where
  pub redirect_to : String
  pub code : Option String
  pub state : Option String

-- `dedupe`
unfoldable pub dedupe_onto : List String → List String → List String
unfolding includes
dedupe_onto out [] = out
dedupe_onto out (v ∷ vs) = dedupe_onto (push_new out v) vs

unfoldable pub dedupe : List String → List String
unfolding dedupe_onto
dedupe values = dedupe_onto [] values

abbrev no_earlier : ℕ → ℕ → Result ℕ
no_earlier initial now =
    if leb initial now then ok now else err (range_error "approval clock moved backward")

abbrev pub or_refused : Result ℕ → Result ℕ
or_refused (ok now) = ok now
or_refused (err e) = err invalid_consent

-- `approvalCommitClock`
unfoldable pub approval_commit_now : (clock : Option ℕ) → (ttl_seconds initial : ℕ) → Result ℕ
unfolding finite_clock_snapshot
approval_commit_now clock ttl_seconds initial =
    or_refused
      (Errors.◌>>=◌ (finite_clock_snapshot clock (ttl_seconds * 1000)) (no_earlier initial))

unfoldable pub commit_outcome : ConsentApprovalCommitResult → Result (Unit {0})
commit_outcome stored = ok tt
commit_outcome binding_mismatch = err invalid_consent
commit_outcome replayed =
    err (oauth_error "invalid_grant" "Consent token has already been used" 400)

-- A parameter that is not a full text is not set.
abbrev full : Option String → Option String
full none = none
full (some s) = if s == "" then none else some s

abbrev state_param : Option String → List (String × Option String)
state_param none = []
state_param (some s) = ("state", some s) ∷ []

abbrev pub or_empty : Option String → String
or_empty none = ""
or_empty (some s) = s

abbrev pub granted_scopes : Option (List String) → (consented prior : List String) → List String
granted_scopes ceiling consented prior = narrowed ceiling (dedupe (consented ++ prior))

module _ (platform : AuthorizePlatform) (config : AuthorizeConfig) where
  unfoldable pub redirect_with_code :
      (redirect_uri code : String) → (state : Option String) → String
  redirect_with_code redirect_uri code state =
      platform.with_params redirect_uri
        (("code", some code) ∷ ("iss", some config.issuer) ∷ state_param (full state))

  -- `buildAuthorizationErrorRedirect`, with no description.
  unfoldable pub error_redirect : (redirect_uri code : String) → (state : Option String) → String
  error_redirect redirect_uri code state = platform.with_params redirect_uri (
      ("error", some code)
      ∷ ("iss", some config.issuer)
      ∷ ("state", state)
      ∷ ("error_description", none)
      ∷ [])

  -- The record that `approve` hands to the store.
  abbrev pub code_record : Consent → List String → (code expires_at : String) → SaveAuthCodeInput
  code_record consent scopes code expires_at = record {
    code_hash = platform.sha256_hex code;
    client_id = consent.client_id;
    subject = consent.subject;
    redirect_uri = consent.redirect_uri;
    resource = consent.resource;
    scopes = scopes;
    code_challenge = consent.code_challenge;
    code_challenge_method = "S256";
    expires_at = expires_at;
    grant_generation = new_grant_generation config;
  }

  abbrev pub approved_result :
      Consent → (code : String) → ConsentApprovalCommitResult → Result ApproveResult
  approved_result consent code outcome = Errors.◌>>◌ (commit_outcome outcome) (
      ok (record {
        redirect_to = redirect_with_code consent.redirect_uri code consent.state;
        code = some code;
        state = consent.state;
      }))

  abbrev pub commit_record :
      Consent → List String → (code : String) → (expires_at : String) → Op ApproveResult
  commit_record consent scopes code expires_at =
      (λ s. port "commitConsentApproval" (
        commit_consent_approval (or_empty consent.store_instance_id) consent.jti consent.expires_at
          (code_record consent scopes code expires_at) s))
      >>= λ outcome. lift (approved_result consent code outcome)

  -- `assertConsentUnexpiredAt`
  abbrev pub unexpired : Consent → ℕ → Result ℕ
  unexpired consent now =
      Errors.◌>>◌ (require (text_lt (platform.jwt.iso now) consent.expires_at) invalid_consent)
        (ok now)

  abbrev pub commit_at : Consent → List String → (code : String) → ℕ → Op ApproveResult
  commit_at consent scopes code now =
      lift (expires_at_iso platform.jwt.iso (some now) config.authorization_code_ttl_seconds)
      >>= commit_record consent scopes code

  abbrev pub commit_scopes :
      Consent
      → (now : ℕ) → (clock' : Option ℕ) → (code : String) → (ceiling : Option (List String))
      → (consented prior : List String) → Op ApproveResult
  commit_scopes consent now clock' code ceiling consented prior =
      lift (
        Errors.◌>>=◌ (approval_commit_now clock' config.authorization_code_ttl_seconds now)
          (unexpired consent))
      >>= commit_at consent (granted_scopes ceiling consented prior) code

  abbrev pub with_ceiling :
      Consent
      → (now : ℕ) → (clock' : Option ℕ) → (code : String) → (consented : List String)
      → Option (List String)
      → Op ApproveResult
  with_ceiling consent now clock' code consented ceiling =
      (prior_grants platform config consent.subject consent.client_id (some now) >>= λ raw.
      lift (stored_scopes raw config.scope_catalog))
      >>= commit_scopes consent now clock' code ceiling consented

  abbrev pub with_consented :
      Consent
      → (now : ℕ) → (clock' : Option ℕ) → (code : String) → (consented : List String)
      → Op ApproveResult
  with_consented consent now clock' code consented =
      lift (assert_allowed_scopes_ceiling consent.allowed_scopes)
      >>= with_ceiling consent now clock' code consented

  -- What follows the user's approval.
  unfoldable pub grant :
      Consent → (now : ℕ) → (clock' : Option ℕ) → (code : String) → Op ApproveResult
  unfolding approval_commit_now expires_at_iso new_grant_generation commit_outcome
      redirect_with_code dedupe keep_if includes
  grant consent now clock' code =
      lift (stored_scopes consent.scopes config.scope_catalog)
      >>= with_consented consent now clock' code

  abbrev pub denied : Consent → ApproveResult
  denied consent = record {
    redirect_to = error_redirect consent.redirect_uri "access_denied" consent.state;
    code = none;
    state = consent.state;
  }

  -- The checks of the consent against the present configuration and store.
  abbrev pub is_bound : Consent → (instance_id : String) → Bool
  is_bound consent instance_id = is_text consent.store_instance_id instance_id

  abbrev pub check_gates : Consent → Result (Unit {0})
  check_gates consent =
      Errors.◌>>◌ (assert_approve_cimd_gate platform config consent.client_id consent.cimd_verified)
        (Errors.◌>>=◌ (assert_oauth_redirect_entry platform.parse_url consent.redirect_uri) λ uri.
          assert_current_consent_redirect platform config consent.client_id consent.redirect_uri)

  abbrev pub check_bound : Consent → (instance_id : String) → Result (Unit {0})
  check_bound consent instance_id =
      Errors.◌>>◌ (require (is_bound consent instance_id) invalid_consent) (check_gates consent)

  unfoldable pub check_consent : Consent → Op (Unit {0})
  unfolding store_instance_id
  check_consent consent =
      lift (require (consent.resource == config.resource) invalid_consent)
      >> (store_instance_id >>= λ id. lift (check_bound consent id))

  abbrev pub decide :
      ApproveInput → (now : ℕ) → (clock' : Option ℕ) → (code : String) → Consent → Op ApproveResult
  decide input now clock' code consent = check_consent consent >>= λ _.
      if input.approved then grant consent now clock' code else pure (denied consent)

  abbrev pub read_consent : ApproveInput → (now : ℕ) → Result Consent
  read_consent input now = Errors.◌>>◌ (assert_approve_origin platform config input.site) (
      Errors.◌>>=◌ (required input.consent_token "consent_token")
        λ token. verify_consent_token platform.jwt token now)

  abbrev pub approve_at :
      ApproveInput → (clock' : Option ℕ) → (code : String) → ℕ → Op ApproveResult
  approve_at input clock' code now = lift (read_consent input now) >>= decide input now clock' code

  unfoldable pub approve :
      ApproveInput → (clock clock' : Option ℕ) → (code : String) → Op ApproveResult
  unfolding check_consent grant error_redirect
  approve input clock clock' code =
      lift (or_refused (finite_clock_snapshot clock 0)) >>= approve_at input clock' code
