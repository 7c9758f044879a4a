-- ===== src/Authorize/Redirecting.antt =====
-- authorize.ts: where an error of prepare() may send the browser.
use mcp_sso.Common.{
  ℕ, String, List, [], ◌∷◌, Option, none, some, true, ◌≡◌, refl, ◌⊎◌, inl, inr, arith, Bool-cases,
  Option-cases,
}
use mcp_sso.Errors.{
  Thrown, OAuthError, oauth, Result, ok, err, Result-cases, call_port, with_redirect,
}
use mcp_sso.Exec.{Exec, continue, lift}
use mcp_sso.Scopes.{normalize_scopes, stored_scopes, assert_allowed_scopes_ceiling}
use mcp_sso.Cimd.Registration.{CimdRegistration}
use mcp_sso.Redirect.Policy.{ClientRegistration}
use mcp_sso.Store.Checks.{assert_store_instance_id}
use mcp_sso.Store.Memory.State.{MemoryStore}
use mcp_sso.Store.Memory.Codes.{get_store_instance_id}
use mcp_sso.Token.Env.{required}
use mcp_sso.Token.Grants.{port}
use mcp_sso.Clock.{finite_clock_snapshot}
use mcp_sso.Consent.{ConsentRequestClaims, sign_consent_token}
use mcp_sso.Authorize.Env.{AuthorizeConfig, AuthorizePlatform, Dcr, stateless, stored_dcr}
use mcp_sso.Authorize.Client.{
  ResolvedClient, accumulation_allowed, resolve_authorize_client, resolve_opaque_redirect,
  opaque_redirect_by, assert_all_allowed, with_found, with_client, parse_client_registration,
}
use mcp_sso.Authorize.Prepare.{
  AuthorizeRequestInput, Resolved, check_subject, check_request, resolve_request, make_consent,
  bound_claims, store_instance_id, checked_id, prior_grants, prepared, with_prior, present, prepare,
  tag, some_scopes, narrowed, sign_claims, claims_of, granted_before, with_token,
}
use mcp_sso.Authorize.Plain.{
  is_plain, fails_plain, bind-plain, call_port-plain, required-plain, clock-plain,
  stored_scopes-plain, ceiling-plain, normalize_scopes-plain, sign-plain, allowed_redirect-plain,
  client_redirect-plain,
}

module _ {S A B : Type 0} where
  continue-plain :
      (m : Result A × S) (f : A → Exec S B)
      → fails_plain m.0 ≡ true
      → ((a : A) (s : S) → fails_plain (f a s).0 ≡ true)
      → fails_plain (continue f m).0 ≡ true
  unfolding fails_plain
  continue-plain (ok a, s) f h k = k a s
  continue-plain (err e, s) f h k = h

error-plain :
    {A : Type 0} (r : Result A) (x y : Thrown)
    → r ≡ err x
    → x ≡ y
    → fails_plain r ≡ true
    → is_plain y ≡ true
unfolding fails_plain
error-plain (ok a) x y h p k = cc
error-plain (err z) x y h p k = let q : z ≡ x = ground arith in cc (p, q, k)

checked_id-plain : (id : String) → fails_plain (checked_id id) ≡ true
unfolding fails_plain assert_store_instance_id
checked_id-plain id = ground arith

store_instance_id-plain : (s : MemoryStore) → fails_plain (store_instance_id s).0 ≡ true
unfolding store_instance_id
store_instance_id-plain s =
    continue-plain (port "getStoreInstanceId" (get_store_instance_id s))
      (λ id. lift (checked_id id))
      (call_port-plain "StorePort" "getStoreInstanceId" (get_store_instance_id s).0)
      (λ id s1. checked_id-plain id)

module _ (platform : AuthorizePlatform) (config : AuthorizeConfig) where
  all_allowed-plain :
      (uris : List String) → fails_plain (assert_all_allowed platform config uris) ≡ true
  unfolding assert_all_allowed fails_plain
  all_allowed-plain [] = refl
  all_allowed-plain (uri ∷ uris) = ground (
    arith,
    allowed_redirect-plain platform.parse_url uri config.redirect_allowlist
        config.redirect_allowlist_mode,
    all_allowed-plain uris,
  )

  with_client-plain :
      (uri : String) (o : Option ClientRegistration)
      → fails_plain (with_client platform config uri o) ≡ true
  unfolding fails_plain
  with_client-plain uri none = refl
  with_client-plain uri (some client) = ground (
    arith,
    all_allowed-plain client.redirect_uris,
    client_redirect-plain platform.parse_url uri client,
  )

  with_found-plain :
      (id uri : String) (o : Option ClientRegistration)
      → fails_plain (with_found platform config id uri o) ≡ true
  with_found-plain id uri none = unfold fails_plain in refl
  with_found-plain id uri (some found) = with_client-plain uri (parse_client_registration found id)

  opaque-plain :
      (d : Dcr) (id uri : String) → fails_plain (opaque_redirect_by platform config d id uri) ≡ true
  unfolding opaque_redirect_by
  opaque-plain stateless id uri =
      allowed_redirect-plain platform.parse_url uri config.redirect_allowlist
        config.redirect_allowlist_mode
  opaque-plain (stored_dcr find) id uri =
      bind-plain (call_port "ClientStore" "find" (find id)) (with_found platform config id uri)
        (call_port-plain "ClientStore" "find" (find id)) (with_found-plain id uri)

  -- What the resolver of client-id documents throws carries no redirect.
  abbrev pub ResolverIsPlain : Type 0
  ResolverIsPlain =
      (resolve : String → String → Result CimdRegistration) (id uri : String)
      → platform.resolve ≡ some resolve
      → fails_plain (resolve id uri) ≡ true

  resolve_client-plain :
      (id uri : String) (r : Option CimdRegistration)
      → ResolverIsPlain
      → fails_plain (resolve_authorize_client platform config id uri r) ≡ true
  unfolding resolve_authorize_client resolve_opaque_redirect fails_plain
  resolve_client-plain id uri (some r) h = ground arith
  resolve_client-plain id uri none h = elim (Option-cases platform.resolve) [
    | inl absent ↦ ground (arith, absent, opaque-plain config.dcr id uri)
    | inr (resolve, given) ↦
        ground (arith, given, h resolve id uri given, opaque-plain config.dcr id uri)
  ]

  prior_grants-plain :
      (subject id : String) (clock : Option ℕ) (s : MemoryStore)
      → fails_plain (prior_grants platform config subject id clock s).0 ≡ true
  unfolding prior_grants
  prior_grants-plain subject id clock s =
      elim (Bool-cases (accumulation_allowed platform config id)) [
        | inr opaque ↦ unfold fails_plain in ground (arith, opaque)
        | inl stored ↦ rw stored (
            continue-plain (finite_clock_snapshot clock 0, s)
              (granted_before platform config subject id) (clock-plain clock 0)
              (λ now s1. call_port-plain "StorePort" "findGrantedScopes" _))
      ]

module _ (platform : AuthorizePlatform) (config : AuthorizeConfig)
    (input : AuthorizeRequestInput) where
  some_scopes-plain :
      (ceiling : Option (List String)) (scopes : List String)
      → fails_plain (some_scopes ceiling scopes) ≡ true
  unfolding fails_plain
  some_scopes-plain none scopes = refl
  some_scopes-plain (some c) scopes = ground arith

  check_request-plain :
      (ceiling : Option (List String))
      → fails_plain (check_request platform config input ceiling) ≡ true
  unfolding check_request fails_plain
  check_request-plain ceiling =
      elim (Result-cases
        (normalize_scopes input.scope config.scope_catalog config.default_scopes)) [
          | inr (e, bad) ↦ ground (
            arith,
            bad,
            required-plain input.code_challenge "code_challenge",
            normalize_scopes-plain input.scope config.scope_catalog config.default_scopes,
          )
          | inl (requested, good) ↦ ground (
            arith,
            good,
            required-plain input.code_challenge "code_challenge",
            some_scopes-plain ceiling (narrowed ceiling requested),
          )
        ]

  sign_claims-plain :
      (clock : Option ℕ) (jti : String) (c : ConsentRequestClaims)
      → fails_plain (sign_claims platform config input clock jti c) ≡ true
  sign_claims-plain clock jti c =
      bind-plain (sign_consent_token platform.jwt c clock config.consent_token_ttl_seconds jti)
        (with_token platform config input c)
        (sign-plain platform.jwt c clock config.consent_token_ttl_seconds jti)
        (λ token. unfold fails_plain in refl)

  make_consent-plain :
      (subject id : String) (client : ResolvedClient) (ceiling : Option (List String))
      (clock : Option ℕ) (jti : String) (s : MemoryStore)
      → fails_plain (make_consent platform config input subject id client ceiling clock jti s).0
        ≡ true
  unfolding make_consent
  make_consent-plain subject id client ceiling clock jti s =
      continue-plain (check_request platform config input ceiling, s)
        (bound_claims platform config input subject id client ceiling clock jti)
        (check_request-plain ceiling)
        (λ r s1.
          continue-plain (store_instance_id s1)
            (λ instance. lift (
              sign_claims platform config input clock jti
                (claims_of platform config input subject id client ceiling r instance)))
            (store_instance_id-plain s1)
            (λ instance s2.
              sign_claims-plain clock jti
                (claims_of platform config input subject id client ceiling r instance)))

  check_subject-plain : (o : Option String) → fails_plain (check_subject o) ≡ true
  unfolding check_subject fails_plain
  check_subject-plain none = refl
  check_subject-plain (some v) = ground arith

  resolve_request-plain :
      ((resolve : String → String → Result CimdRegistration) (id uri : String)
        → platform.resolve ≡ some resolve
        → fails_plain (resolve id uri) ≡ true)
      → fails_plain (resolve_request platform config input) ≡ true
  unfolding resolve_request fails_plain
  resolve_request-plain h = elim (Result-cases (check_subject input.subject)) [
    | inr (e, bad) ↦ ground (arith, bad, check_subject-plain input.subject)
    | inl (subject, c0) ↦ elim (Result-cases (assert_allowed_scopes_ceiling input.allowed_scopes)) [
      | inr (e, bad) ↦ ground (arith, c0, bad, ceiling-plain input.allowed_scopes)
      | inl (ceiling, c1) ↦ elim (Result-cases (required input.client_id "client_id")) [
        | inr (e, bad) ↦ ground (arith, c0, c1, bad, required-plain input.client_id "client_id")
        | inl (id, c2) ↦ elim (Result-cases (required input.redirect_uri "redirect_uri")) [
          | inr (e, bad) ↦
              ground (arith, c0, c1, c2, bad, required-plain input.redirect_uri "redirect_uri")
          | inl (uri, c3) ↦ ground (
            arith,
            c0,
            c1,
            c2,
            c3,
            resolve_client-plain platform config id uri input.registration h,
          )
        ]
      ]
    ]
  ]

  present-plain :
      (q : Resolved) (clock : Option ℕ) (made : ConsentRequestClaims × String) (s : MemoryStore)
      → fails_plain (present platform config input q clock made s).0 ≡ true
  present-plain q clock made s =
      continue-plain (prior_grants platform config q.subject q.client_id clock s)
        (λ raw. lift (prepared platform config input q.ceiling made raw))
        (prior_grants-plain platform config q.subject q.client_id clock s)
        (λ raw s1.
          bind-plain (stored_scopes raw config.scope_catalog)
            (with_prior platform config input q.ceiling made)
            (stored_scopes-plain raw config.scope_catalog) (λ prior. unfold fails_plain in refl))

  redirect_of : (e : OAuthError) → is_plain (oauth e) ≡ true → e.redirect ≡ none
  unfolding is_plain
  redirect_of e h = ground arith

  -- The two ways in which an error of `prepare` may go.
  abbrev pub IsDirected : OAuthError → Type 0
  IsDirected e =
      (e.redirect ≡ none)
      ⊎ ((q : Resolved) × (resolve_request platform config input ≡ ok q)
          × (e.redirect
              ≡ some (record { redirect_uri = q.client.redirect_uri; state = input.state })))

  tag-directed :
      (uri : String) (state : Option String) (x : Thrown) (e : OAuthError)
      → is_plain x ≡ true
      → tag uri state x ≡ oauth e
      → e.redirect ≡ some (record { redirect_uri = uri; state = state })
  unfolding tag is_plain with_redirect
  tag-directed uri state (oauth x) e h k = ground arith
  tag-directed uri state x e h k = cc

  -- An OAuth error of `prepare` carries no redirect, or carries the redirect URI that the resolution of
  -- the client accepted for this request, with the request's state; so before the client is resolved no
  -- error is sent anywhere. The resolver of client-id documents is taken to throw no redirect of its own.
  pub error_redirect_sound :
      (clock clock' : Option ℕ) (jti : String) (e : OAuthError) (s s' : MemoryStore)
      → ((resolve : String → String → Result CimdRegistration) (id uri : String)
          → platform.resolve ≡ some resolve
          → fails_plain (resolve id uri) ≡ true)
      → prepare platform config input clock clock' jti s ≡ (err (oauth e), s')
      → IsDirected e
  unfolding prepare
  error_redirect_sound clock clock' jti e s s' h failed =
      elim (Result-cases (resolve_request platform config input)) [
        | inr (x, bad) ↦ inl (
            redirect_of e (
              error-plain (resolve_request platform config input) x (oauth e) bad
                (ground (arith, bad, failed)) (resolve_request-plain h)))
        | inl (q, good) ↦
            let m =
              make_consent platform config input q.subject q.client_id q.client q.ceiling clock jti
                s in
            elim (Result-cases m.0) [
              | inr (x, bad) ↦ inr (
                q,
                good,
                tag-directed q.client.redirect_uri input.state x e
                    (error-plain m.0 x x bad refl
                      (make_consent-plain q.subject q.client_id q.client q.ceiling clock jti s))
                    (ground (arith, good, bad, failed)),
              )
              | inl (made, done) ↦ inl (
                  redirect_of e (
                    error-plain (present platform config input q clock' made m.1).0 (oauth e)
                      (oauth e) (ground (arith, good, done, failed)) refl
                      (present-plain q clock' made m.1)))
            ]
      ]
