-- ===== src/Authorize/Prepare.antt =====
-- authorize.ts: prepare(). The clock is read twice, for the token and for the prior grants.
-- The display fields and the audit writes are left out; the writes change neither the result nor the
-- store.
use mcp_sso.Common.{
  ℕ, String, List, [], Option, none, some, ◌==◌, is_text, is_some, includes, keep_if, length, ltb,
  if◌then◌else◌,
}
use mcp_sso.Errors
use mcp_sso.Errors.{Thrown, Result, ok, err, oauth, oauth_error, with_redirect, require}
use mcp_sso.Exec.{pure, lift, ◌>>=◌}
use mcp_sso.Subject.{is_machine_subject}
use mcp_sso.Scopes.{ScopeInput, normalize_scopes, stored_scopes, assert_allowed_scopes_ceiling}
use mcp_sso.Clock.{finite_clock_snapshot}
use mcp_sso.Consent.{ConsentRequestClaims, sign_consent_token}
use mcp_sso.Cimd.Registration.{CimdRegistration}
use mcp_sso.Store.Checks.{assert_store_instance_id}
use mcp_sso.Store.Memory.State.{MemoryStore, Op}
use mcp_sso.Store.Memory.Codes.{get_store_instance_id}
use mcp_sso.Store.Memory.Expiry.{find_granted_scopes}
use mcp_sso.Token.Env.{required}
use mcp_sso.Token.Grants.{port}
use mcp_sso.Authorize.Env.{AuthorizeConfig, AuthorizePlatform, dcr_generation}
use mcp_sso.Authorize.Client.{ResolvedClient, resolve_authorize_client, accumulation_allowed}

pub record AuthorizeRequestInput : Type 0 where
  pub client_id : Option String
  pub redirect_uri : Option String
  pub response_type : Option String
  pub code_challenge : Option String
  pub code_challenge_method : Option String
  pub resource : Option String
  pub scope : ScopeInput
  pub state : Option String
  pub subject : Option String
  pub allowed_scopes : Option (List String)
  pub registration : Option CimdRegistration

pub record PreparedConsent : Type 0 where
  pub consent_token : String
  pub claims : ConsentRequestClaims
  pub open claims use *
  pub prior_scopes : List String

abbrev no_subject : Thrown
no_subject = oauth_error "access_denied" "Authenticated subject is required" 401

unfoldable pub check_subject : Option String → Result String
check_subject none = err no_subject
check_subject (some s) =
    if s == ""
    then err no_subject
    else if is_machine_subject s
    then err (oauth_error "access_denied" "Subject uses the reserved machine-client namespace" 401)
    else ok s

-- What the request is for, once its parameters are checked.
pub record Request : Type 0 where
  pub resource : String
  pub code_challenge : String
  pub scopes : List String

abbrev pub narrowed : Option (List String) → List String → List String
narrowed none scopes = scopes
narrowed (some ceiling) scopes = keep_if (includes ceiling) scopes

-- An empty list is refused only where there is a ceiling.
abbrev pub some_scopes : Option (List String) → List String → Result (List String)
some_scopes none scopes = ok scopes
some_scopes (some ceiling) scopes =
    if ltb 0 (length scopes)
    then ok scopes
    else err
        (oauth_error "access_denied" "No requested scopes are within the authorized ceiling" 400)

-- `input.resource || otherwise`
abbrev pub or_resource : Option String → String → String
or_resource none otherwise = otherwise
or_resource (some r) otherwise = if r == "" then otherwise else r

-- `prepare` tags an error that has no redirect yet.
unfoldable pub tag : String → Option String → Thrown → Thrown
unfolding with_redirect
tag uri state (oauth e) = elim e.redirect [
  | none ↦ oauth (with_redirect e uri state)
  | some t ↦ oauth e
]
tag uri state e = e

abbrev pub tagged {ℓ} :
    {A : Type ℓ} → String → Option String → Result A × MemoryStore → Result A × MemoryStore
tagged uri state (ok a, s) = (ok a, s)
tagged uri state (err e, s) = (err (tag uri state e), s)

abbrev pub checked_id : String → Result String
checked_id id = Errors.◌>>◌ (assert_store_instance_id id) (ok id)

-- `storeInstanceId(store)`
unfoldable pub store_instance_id : Op String
store_instance_id =
    (λ s. port "getStoreInstanceId" (get_store_instance_id s)) >>= λ id. lift (checked_id id)

-- What is known once the client is resolved.
pub record Resolved : Type 0 where
  pub subject : String
  pub ceiling : Option (List String)
  pub client_id : String
  pub asked_uri : String
  pub client : ResolvedClient

module _ (platform : AuthorizePlatform) (config : AuthorizeConfig) where
  abbrev pub granted_before : (subject client_id : String) → ℕ → Op (List String)
  granted_before subject client_id now s = port "findGrantedScopes" (
      find_granted_scopes subject client_id (platform.jwt.iso now) (dcr_generation config)
        (some config.resource) s)

  -- The prior grants of an opaque client, by the clock's second reading.
  unfoldable pub prior_grants : (subject client_id : String) → (clock : Option ℕ) → Op (List String)
  prior_grants subject client_id clock =
      if accumulation_allowed platform config client_id
      then lift (finite_clock_snapshot clock 0) >>= granted_before subject client_id
      else pure []

module _ (platform : AuthorizePlatform) (config : AuthorizeConfig)
    (input : AuthorizeRequestInput) where
  unfoldable pub check_request : Option (List String) → Result Request
  unfolding keep_if includes normalize_scopes
  check_request ceiling =
      Errors.◌>>◌
        (require (is_text input.response_type "code")
          (oauth_error "unsupported_response_type" "Only response_type=code is supported" 400))
        (Errors.◌>>◌
          (require (or_resource input.resource config.resource == config.resource)
            (oauth_error "invalid_target" "Unknown OAuth resource" 400))
          (Errors.◌>>◌
            (require (is_text input.code_challenge_method "S256")
              (oauth_error "invalid_request" "PKCE code_challenge_method must be S256" 400))
            (Errors.◌>>=◌ (required input.code_challenge "code_challenge") λ code_challenge.
              Errors.◌>>=◌ (normalize_scopes input.scope config.scope_catalog config.default_scopes)
                λ requested.
                  Errors.◌>>=◌ (some_scopes ceiling (narrowed ceiling requested)) λ scopes.
                    ok (record {
                      resource = or_resource input.resource config.resource;
                      code_challenge = code_challenge;
                      scopes = scopes;
                    }))))

  abbrev pub claims_of :
      (subject client_id : String)
      → ResolvedClient
      → Option (List String)
      → Request
      → (instance_id : String) → ConsentRequestClaims
  claims_of subject client_id resolved ceiling r instance_id = record {
    client_id = client_id;
    redirect_uri = resolved.redirect_uri;
    resource = r.resource;
    scopes = r.scopes;
    code_challenge = r.code_challenge;
    state = input.state;
    subject = subject;
    allowed_scopes = ceiling;
    store_instance_id = some instance_id;
    cimd_verified = is_some resolved.registration;
  }

  abbrev pub with_token : ConsentRequestClaims → String → Result (ConsentRequestClaims × String)
  with_token c token = ok (c, token)

  abbrev pub sign_claims :
      (clock : Option ℕ)
      → (jti : String) → ConsentRequestClaims
      → Result (ConsentRequestClaims × String)
  sign_claims clock jti c =
      Errors.◌>>=◌ (sign_consent_token platform.jwt c clock config.consent_token_ttl_seconds jti)
        (with_token c)

  abbrev pub bound_claims :
      (subject client_id : String)
      → ResolvedClient
      → Option (List String)
      → (clock : Option ℕ) → (jti : String) → Request
      → Op (ConsentRequestClaims × String)
  bound_claims subject client_id resolved ceiling clock jti r = store_instance_id >>= λ id.
      lift (sign_claims clock jti (claims_of subject client_id resolved ceiling r id))

  -- The part of `prepare` whose errors are tagged with the redirect.
  unfoldable pub make_consent :
      (subject client_id : String)
      → ResolvedClient
      → Option (List String)
      → (clock : Option ℕ) → (jti : String) → Op (ConsentRequestClaims × String)
  unfolding check_request store_instance_id
  make_consent subject client_id resolved ceiling clock jti =
      lift (check_request ceiling) >>= bound_claims subject client_id resolved ceiling clock jti

  -- The part of `prepare` before the redirect is known: its errors carry none.
  unfoldable pub resolve_request : Result Resolved
  unfolding check_subject
  resolve_request = Errors.◌>>=◌ (check_subject input.subject) λ subject.
      Errors.◌>>=◌ (assert_allowed_scopes_ceiling input.allowed_scopes) λ ceiling.
        Errors.◌>>=◌ (required input.client_id "client_id") λ client_id.
          Errors.◌>>=◌ (required input.redirect_uri "redirect_uri") λ asked_uri.
            Errors.◌>>=◌
              (resolve_authorize_client platform config client_id asked_uri input.registration)
              λ client. ok (record {
                subject = subject;
                ceiling = ceiling;
                client_id = client_id;
                asked_uri = asked_uri;
                client = client;
              })

  abbrev pub with_prior :
      Option (List String) → ConsentRequestClaims × String → List String → Result PreparedConsent
  with_prior ceiling (claims, token) prior =
      ok (record { consent_token = token; claims = claims; prior_scopes = narrowed ceiling prior })

  abbrev pub prepared :
      Option (List String) → ConsentRequestClaims × String → List String → Result PreparedConsent
  prepared ceiling made raw =
      Errors.◌>>=◌ (stored_scopes raw config.scope_catalog) (with_prior ceiling made)

  abbrev pub present :
      Resolved → (clock : Option ℕ) → ConsentRequestClaims × String → Op PreparedConsent
  present r clock made = prior_grants platform config r.subject r.client_id clock >>= λ raw.
      lift (prepared r.ceiling made raw)

  abbrev pub prepare_resolved :
      (clock clock' : Option ℕ) → (jti : String) → Resolved → Op PreparedConsent
  prepare_resolved clock clock' jti r =
      (λ s.
        tagged r.client.redirect_uri input.state
          (make_consent r.subject r.client_id r.client r.ceiling clock jti s))
      >>= present r clock'

  unfoldable pub prepare : (clock clock' : Option ℕ) → (jti : String) → Op PreparedConsent
  unfolding resolve_request make_consent prior_grants
  prepare clock clock' jti = lift resolve_request >>= prepare_resolved clock clock' jti
