-- ===== src/Authorize/Preparing.antt =====
-- authorize.ts: what a prepared consent has checked.
use mcp_sso.Common.{
  ℕ, String, List, Option, none, some, true, false, ◌==◌, ◌≡◌, refl, inl, inr, arith, eq_iff,
  is_text, is_some,
}
use mcp_sso.Errors.{Result, ok, err, Result-cases, require-passed, bind-passed}
use mcp_sso.Exec.{continue-passed, lift-passed, lift}
use mcp_sso.Subject.{is_machine_subject}
use mcp_sso.Scopes.{normalize_scopes, stored_scopes, assert_allowed_scopes_ceiling}
use mcp_sso.Scopes.Laws.{IsGranted, normalize_scopes-IsGranted}
use mcp_sso.Consent.{ConsentRequestClaims, sign_consent_token}
use mcp_sso.Store.Memory.State.{MemoryStore}
use mcp_sso.Token.Env.{required}
use mcp_sso.Authorize.Env.{AuthorizeConfig, AuthorizePlatform}
use mcp_sso.Authorize.Client.{ResolvedClient, resolve_authorize_client}
use mcp_sso.Authorize.Prepare.{
  AuthorizeRequestInput, PreparedConsent, Request, Resolved, check_subject, check_request,
  resolve_request, make_consent, bound_claims, claims_of, sign_claims, with_token,
  store_instance_id, prior_grants, prepared, with_prior, present, prepare_resolved, prepare,
  narrowed, some_scopes, tagged, or_resource,
}
use mcp_sso.Authorize.Frame.{
  store_instance_id-eq, prior_grants-frame, UnderCeiling, narrowed-UnderCeiling, narrowed-IsGranted,
}

module _ (platform : AuthorizePlatform) (config : AuthorizeConfig)
    (input : AuthorizeRequestInput) where
  -- The claims that are signed fit the request, the configuration and the store.
  pub record IsSound (c : ConsentRequestClaims) (s : MemoryStore) : Type 0 where
    pub client : ResolvedClient
    pub asked : String
    pub presented : (input.client_id ≡ some c.client_id) × (input.redirect_uri ≡ some asked)
    pub resolved :
        resolve_authorize_client platform config c.client_id asked input.registration ≡ ok client
    pub redirect : c.redirect_uri ≡ client.redirect_uri
    pub provenance : c.cimd_verified ≡ is_some client.registration
    pub subject : (input.subject ≡ some c.subject) × (is_machine_subject c.subject ≡ false)
    pub resource : c.resource ≡ config.resource
    pub pkce :
        (input.code_challenge ≡ some c.code_challenge) × (input.code_challenge_method ≡ some "S256")
    pub ceiling : (c.allowed_scopes ≡ input.allowed_scopes) × UnderCeiling c.allowed_scopes c.scopes
    pub catalog : IsGranted config.scope_catalog c.scopes
    pub instance : c.store_instance_id ≡ some s.store_instance_id

  subject-passed :
      (o : Option String) (v : String)
      → check_subject o ≡ ok v
      → (o ≡ some v) × (is_machine_subject v ≡ false)
  unfolding check_subject
  subject-passed none v h = cc
  subject-passed (some w) v h = (ground arith, ground arith)

  required_text : (o : Option String) (label v : String) → required o label ≡ ok v → o ≡ some v
  unfolding required
  required_text none label v h = cc
  required_text (some w) label v h = ground arith

  same_text_of : (o : Option String) (v : String) → is_text o v ≡ true → o ≡ some v
  same_text_of none v h = cc
  same_text_of (some w) v h = ground (arith, eq_iff w v)

  same_ceiling : (o c : Option (List String)) → assert_allowed_scopes_ceiling o ≡ ok c → c ≡ o
  unfolding assert_allowed_scopes_ceiling
  same_ceiling none c h = ground arith
  same_ceiling (some scopes) c h = ground arith

  some_scopes-eq :
      (ceiling : Option (List String)) (scopes out : List String)
      → some_scopes ceiling scopes ≡ ok out
      → out ≡ scopes
  some_scopes-eq none scopes out h = ground arith
  some_scopes-eq (some c) scopes out h = ground arith

  resolve_request-passed :
      (q : Resolved)
      → resolve_request platform config input ≡ ok q
      → (check_subject input.subject ≡ ok q.subject)
        × (assert_allowed_scopes_ceiling input.allowed_scopes ≡ ok q.ceiling)
        × (required input.client_id "client_id" ≡ ok q.client_id)
        × (required input.redirect_uri "redirect_uri" ≡ ok q.asked_uri)
        × (resolve_authorize_client platform config q.client_id q.asked_uri input.registration
            ≡ ok q.client)
  unfolding resolve_request
  resolve_request-passed q h = elim (Result-cases (check_subject input.subject)) [
    | inr (e, bad) ↦ ground (arith, bad)
    | inl (subject, c0) ↦ elim (Result-cases (assert_allowed_scopes_ceiling input.allowed_scopes)) [
      | inr (e, bad) ↦ ground (arith, c0, bad)
      | inl (ceiling, c1) ↦ elim (Result-cases (required input.client_id "client_id")) [
        | inr (e, bad) ↦ ground (arith, c0, c1, bad)
        | inl (id, c2) ↦ elim (Result-cases (required input.redirect_uri "redirect_uri")) [
          | inr (e, bad) ↦ ground (arith, c0, c1, c2, bad)
          | inl (uri, c3) ↦
              elim (Result-cases
                (resolve_authorize_client platform config id uri input.registration)) [
                  | inr (e, bad) ↦ ground (arith, c0, c1, c2, c3, bad)
                  | inl (client, c4) ↦
                      let e : record {
                        subject = subject;
                        ceiling = ceiling;
                        client_id = id;
                        asked_uri = uri;
                        client = client;
                      }
                          ≡ q =
                        ground (arith, c0, c1, c2, c3, c4) in
                      rw (← e) (c0, c1, c2, c3, c4)
                ]
        ]
      ]
    ]
  ]

  check_request-passed :
      (ceiling : Option (List String)) (r : Request)
      → check_request platform config input ceiling ≡ ok r
      → (r.resource ≡ config.resource)
        × (input.code_challenge ≡ some r.code_challenge)
        × (input.code_challenge_method ≡ some "S256")
        × UnderCeiling ceiling r.scopes
        × IsGranted config.scope_catalog r.scopes
  unfolding check_request
  check_request-passed ceiling r h =
      let (typed, h0) = require-passed (is_text input.response_type "code") _ _ r h in
      let (targeted, h1) =
        require-passed (or_resource input.resource config.resource == config.resource) _ _ r h0 in
      let (method, h2) = require-passed (is_text input.code_challenge_method "S256") _ _ r h1 in
      elim (Result-cases (required input.code_challenge "code_challenge")) [
        | inr (e, bad) ↦ ground (arith, h2, bad)
        | inl (challenge, c0) ↦
            elim (Result-cases
              (normalize_scopes input.scope config.scope_catalog config.default_scopes)) [
                | inr (e, bad) ↦ ground (arith, h2, c0, bad)
                | inl (requested, c1) ↦
                    elim (Result-cases (some_scopes ceiling (narrowed ceiling requested))) [
                      | inr (e, bad) ↦ ground (arith, h2, c0, c1, bad)
                      | inl (scopes, c2) ↦
                          let same =
                            some_scopes-eq ceiling (narrowed ceiling requested) scopes c2 in
                          let here : r.scopes ≡ narrowed ceiling requested =
                            ground (arith, h2, c0, c1, c2, same) in
                          (
                            ground (
                              arith,
                              h2,
                              c0,
                              c1,
                              c2,
                              eq_iff (or_resource input.resource config.resource) config.resource,
                            ),
                            required_text input.code_challenge "code_challenge" r.code_challenge
                                (ground (arith, h2, c0, c1, c2)),
                            same_text_of input.code_challenge_method "S256" method,
                            rw here (narrowed-UnderCeiling ceiling requested),
                            rw here (
                                narrowed-IsGranted config.scope_catalog ceiling requested (
                                  normalize_scopes-IsGranted input.scope config.scope_catalog
                                    config.default_scopes requested c1)),
                          )
                    ]
              ]
      ]

  tagged-passed :
      {A : Type 0} (uri : String) (state : Option String) (m : Result A × MemoryStore) (a : A)
      (s' : MemoryStore)
      → tagged uri state m ≡ (ok a, s')
      → m ≡ (ok a, s')
  tagged-passed uri state (ok b, s) a s' h = h
  tagged-passed uri state (err e, s) a s' h = cc

  make_consent-passed :
      (q : Resolved) (clock : Option ℕ) (jti token : String) (c : ConsentRequestClaims)
      (s s' : MemoryStore)
      → make_consent platform config input q.subject q.client_id q.client q.ceiling clock jti s
        ≡ (ok (c, token), s')
      → (r : Request) × (check_request platform config input q.ceiling ≡ ok r)
        × (c
            ≡ claims_of platform config input q.subject q.client_id q.client q.ceiling r
                s.store_instance_id)
        × (sign_consent_token platform.jwt c clock config.consent_token_ttl_seconds jti ≡ ok token)
        × (s' ≡ s)
  unfolding make_consent
  make_consent-passed q clock jti token c s s' h =
      let (r, c0, h0) =
        lift-passed (check_request platform config input q.ceiling)
          (bound_claims platform config input q.subject q.client_id q.client q.ceiling clock jti)
          (c, token) s s' h in
      let (id, s1, c1, h1) =
        continue-passed (store_instance_id s)
          (λ id. lift (
            sign_claims platform config input clock jti
              (claims_of platform config input q.subject q.client_id q.client q.ceiling r id)))
          (c, token) s' h0 in
      let (same, kept) = store_instance_id-eq s s1 id c1 in
      let made = claims_of platform config input q.subject q.client_id q.client q.ceiling r id in
      let (signed, c2, h2) =
        bind-passed
          (sign_consent_token platform.jwt made clock config.consent_token_ttl_seconds jti)
          (with_token platform config input made) (c, token) (ground (arith, h1)) in
      let here : made ≡ c = ground (arith, h2) in
      let token_here : signed ≡ token = ground (arith, h2) in
      (r, c0, cc (here, same), cc (here, token_here, c2), ground (arith, h1, kept))

  -- A consent that `prepare` returns is for a human subject, for the configured resource, with an S256
  -- challenge, and for a client that the dispatch by the shape of its id resolved, with the redirect URI
  -- that this gave. Its scopes are distinct, in the catalog and under the ceiling; it is bound to the
  -- store's instance, its token is the one that the claims were signed with, and the store is unchanged.
  pub prepare-IsSound :
      (clock clock' : Option ℕ) (jti : String) (p : PreparedConsent) (s s' : MemoryStore)
      → prepare platform config input clock clock' jti s ≡ (ok p, s')
      → IsSound p.claims s
        × (sign_consent_token platform.jwt p.claims clock config.consent_token_ttl_seconds jti
            ≡ ok p.consent_token)
        × (s' ≡ s)
  unfolding prepare
  prepare-IsSound clock clock' jti p s s' h =
      let (q, c0, h0) =
        lift-passed (resolve_request platform config input)
          (prepare_resolved platform config input clock clock' jti) p s s' h in
      let ((c, token), s1, c1, h1) =
        continue-passed
          (tagged q.client.redirect_uri input.state (
            make_consent platform config input q.subject q.client_id q.client q.ceiling clock jti
              s))
          (present platform config input q clock') p s' h0 in
      let (raw, s2, c2, h2) =
        continue-passed (prior_grants platform config q.subject q.client_id clock' s1)
          (λ raw. lift (prepared platform config input q.ceiling (c, token) raw)) p s' h1 in
      let (known, ceiled, named, asked, found) = resolve_request-passed q c0 in
      let (r, checked, claims, signed, kept) =
        make_consent-passed q clock jti token c s s1
          (tagged-passed q.client.redirect_uri input.state _ (c, token) s1 c1) in
      let (resource, challenge, method, under, granted) =
        check_request-passed q.ceiling r checked in
      let (prior, c3, h3) =
        bind-passed (stored_scopes raw config.scope_catalog)
          (with_prior platform config input q.ceiling (c, token)) p (ground (arith, h2)) in
      let here : p.claims ≡ c = ground (arith, h3) in
      let token_here : p.consent_token ≡ token = ground (arith, h3) in
      let (who, human) = subject-passed input.subject q.subject known in
      let same = same_ceiling input.allowed_scopes q.ceiling ceiled in
      (
        rw here (
            rw claims (record {
              client = q.client;
              asked = q.asked_uri;
              presented = (
                required_text input.client_id "client_id" q.client_id named,
                required_text input.redirect_uri "redirect_uri" q.asked_uri asked,
              );
              resolved = found;
              redirect = refl;
              provenance = refl;
              subject = (who, human);
              resource = resource;
              pkce = (challenge, method);
              ceiling = (same, under);
              catalog = granted;
              instance = refl;
            })),
        cc (here, token_here, signed),
        ground (
          arith,
          h2,
          kept,
          c2,
          prior_grants-frame platform config q.subject q.client_id clock' s1,
        ),
      )
