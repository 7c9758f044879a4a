-- ===== src/Authorize/Checks.antt =====
-- authorize.ts: what the stages of an approval that returned have checked.
use mcp_sso.Common.{
  ℕ, ◌+◌, ◌*◌, ◌≤◌, String, List, Option, none, some, true, ◌==◌, ◌≡◌, refl, inl, inr, arith, ◌&&◌,
  ◌||◌, includes, eq_iff, is_text, text_lt, Bool-cases,
}
use mcp_sso.Errors
use mcp_sso.Errors.{ok, Result-cases, require-passed, bind-passed, require}
use mcp_sso.Exec.{continue-passed, lift-passed, lift, ◌>>=◌}
use mcp_sso.Dict.{get, put}
use mcp_sso.Scopes.{assert_allowed_scopes_ceiling}
use mcp_sso.Scopes.Laws.{IsGranted}
use mcp_sso.Clock.{finite_clock_snapshot, integer_clock_snapshot, expires_at_iso}
use mcp_sso.Consent.{Consent, verify_consent_token, invalid_consent}
use mcp_sso.Redirect.Policy.{assert_oauth_redirect_entry}
use mcp_sso.Store.{AuthCodeRecord, ConsentApprovalCommitResult, stored, replayed, binding_mismatch}
use mcp_sso.Store.Checks.{grant_generation_for_write}
use mcp_sso.Store.Memory.State.{MemoryStore}
use mcp_sso.Store.Memory.Codes.{commit_consent_approval}
use mcp_sso.Store.Memory.SingleUse.{commit_atomic}
use mcp_sso.Token.Env.{required}
use mcp_sso.Token.Grants.{port}
use mcp_sso.Token.Port.{port-passed}
use mcp_sso.Authorize.Env.{AuthorizeConfig, AuthorizePlatform, new_grant_generation}
use mcp_sso.Authorize.Client.{
  assert_approve_cimd_gate, assert_current_consent_redirect, assert_approve_origin,
  approve_origin_allowed,
}
use mcp_sso.Authorize.Prepare.{store_instance_id, prior_grants}
use mcp_sso.Authorize.Approve.{
  ApproveInput, ApproveResult, read_consent, check_consent, check_bound, check_gates, commit_at,
  commit_record, unexpired, approval_commit_now, granted_scopes, code_record, approved_result,
  commit_outcome, is_bound, or_empty, or_refused,
}
use mcp_sso.Authorize.Frame.{store_instance_id-eq, UnderCeiling, holds}

module _ (platform : AuthorizePlatform) (config : AuthorizeConfig) where
  -- The consent fits the present configuration and the store.
  pub record IsCurrent (consent : Consent) (s : MemoryStore) : Type 0 where
    pub resource : consent.resource ≡ config.resource
    pub instance : consent.store_instance_id ≡ some s.store_instance_id
    pub provenance :
        assert_approve_cimd_gate platform config consent.client_id consent.cimd_verified ≡ ok tt
    pub redirect :
        assert_current_consent_redirect platform config consent.client_id consent.redirect_uri
        ≡ ok tt

  -- The row of a code that an approval stores.
  abbrev pub code_row : Consent → List String → (code : String) → (later : ℕ) → AuthCodeRecord
  code_row consent scopes code later = record {
    code_hash = platform.sha256_hex code;
    client_id = consent.client_id;
    subject = consent.subject;
    redirect_uri = consent.redirect_uri;
    resource = consent.resource;
    scopes = scopes;
    code_challenge = consent.code_challenge;
    code_challenge_method = "S256";
    expires_at = platform.jwt.iso (later + config.authorization_code_ttl_seconds * 1000);
    grant_generation = grant_generation_for_write (new_grant_generation config);
  }

  -- The scopes of a code: those consented to and those of the prior grants, under the ceiling.
  pub record AreScopes (consent : Consent) (now : ℕ) (s : MemoryStore) (scopes : List String)
      : Type 0 where
    pub prior : List String
    pub read :
        (prior_grants platform config consent.subject consent.client_id (some now) s).0 ≡ ok prior
    pub union : scopes ≡ granted_scopes consent.allowed_scopes consent.scopes prior
    pub exact :
        (w : String)
        → includes scopes w
          ≡ ((includes consent.scopes w || includes prior w) && holds consent.allowed_scopes w)
    pub catalog : IsGranted config.scope_catalog scopes
    pub ceiling : UnderCeiling consent.allowed_scopes scopes

  -- One code is stored, under a consent id that was not used, at an instant before the consent's expiry.
  pub record Stores (consent : Consent) (now : ℕ) (clock' : Option ℕ) (code : String)
      (scopes : List String) (s s' : MemoryStore) : Type 0 where
    pub later : ℕ
    pub reading : clock' ≡ some later
    pub forward : now ≤ later
    pub in_date : text_lt (platform.jwt.iso later) consent.expires_at ≡ true
    pub fresh : get consent.jti s.consent_jtis ≡ none
    pub after : s' ≡ record s {
      consent_jtis = put consent.jti consent.expires_at s.consent_jtis;
      auth_codes = put (platform.sha256_hex code) (code_row consent scopes code later) s.auth_codes;
    }

  text_of : (o : Option String) (v : String) → is_text o v ≡ true → o ≡ some v
  text_of none v h = cc
  text_of (some w) v h = ground (arith, eq_iff w v)

  check_gates-passed :
      (consent : Consent)
      → check_gates platform config consent ≡ ok tt
      → (assert_approve_cimd_gate platform config consent.client_id consent.cimd_verified ≡ ok tt)
        × (assert_current_consent_redirect platform config consent.client_id consent.redirect_uri
            ≡ ok tt)
  check_gates-passed consent h =
      elim (Result-cases
        (assert_approve_cimd_gate platform config consent.client_id consent.cimd_verified)) [
          | inr (e, bad) ↦ ground (arith, bad)
          | inl (u, gate) ↦
              elim (Result-cases
                (assert_oauth_redirect_entry platform.parse_url consent.redirect_uri)) [
                  | inr (e, bad) ↦ ground (arith, gate, bad)
                  | inl (uri, entry) ↦ (gate, ground (arith, gate, entry))
                ]
        ]

  pub check_consent-IsCurrent :
      (consent : Consent) (s s' : MemoryStore)
      → check_consent platform config consent s ≡ (ok tt, s')
      → IsCurrent consent s × (s' ≡ s)
  unfolding check_consent
  check_consent-IsCurrent consent s s' h =
      let (u, of_resource, h0) =
        lift-passed (require (consent.resource == config.resource) invalid_consent)
          (λ _. store_instance_id >>= λ id. lift (check_bound platform config consent id)) tt s s'
          h in
      let (id, s1, read, h1) =
        continue-passed (store_instance_id s) (λ id. lift (check_bound platform config consent id))
          tt s' h0 in
      let (same, kept) = store_instance_id-eq s s1 id read in
      let (bound, h2) =
        require-passed (is_bound platform config consent id) invalid_consent
          (check_gates platform config consent) tt (ground (arith, h1)) in
      let (gate, redirect) = check_gates-passed consent h2 in
      (
        record {
          resource = ground (arith, of_resource, eq_iff consent.resource config.resource);
          instance = rw same (text_of consent.store_instance_id id bound);
          provenance = gate;
          redirect = redirect;
        },
        ground (arith, h1, kept),
      )

  approval_commit_now-passed :
      (clock' : Option ℕ) (ttl now later : ℕ)
      → approval_commit_now clock' ttl now ≡ ok later
      → (clock' ≡ some later) × (now ≤ later)
  unfolding approval_commit_now finite_clock_snapshot integer_clock_snapshot
  approval_commit_now-passed none ttl now later h = ground arith
  approval_commit_now-passed (some t) ttl now later h = (ground arith, ground arith)

  pub unexpired-passed :
      (consent : Consent) (clock' : Option ℕ) (ttl now later : ℕ)
      → (Errors.◌>>=◌ (approval_commit_now clock' ttl now) (unexpired platform config consent))
        ≡ ok later
      → (clock' ≡ some later)
        × (now ≤ later)
        × (text_lt (platform.jwt.iso later) consent.expires_at ≡ true)
  unexpired-passed consent clock' ttl now later h =
      let (t, read, h0) =
        bind-passed (approval_commit_now clock' ttl now) (unexpired platform config consent) later
          h in
      let (unspent, same) =
        require-passed (text_lt (platform.jwt.iso t) consent.expires_at) invalid_consent (ok t)
          later h0 in
      let e : t ≡ later = ground (arith, same) in
      rw (← e) (
        (approval_commit_now-passed clock' ttl now t read).0,
        (approval_commit_now-passed clock' ttl now t read).1,
        unspent,
      )

  outcome-passed :
      (consent : Consent) (code : String) (outcome : ConsentApprovalCommitResult)
      (r : ApproveResult)
      → approved_result platform config consent code outcome ≡ ok r
      → (outcome ≡ stored) × (r.code ≡ some code)
  unfolding commit_outcome
  outcome-passed consent code stored r h = (refl, ground arith)
  outcome-passed consent code replayed r h = cc
  outcome-passed consent code binding_mismatch r h = cc

  expires_at_iso-eq :
      (iso : ℕ → String) (later ttl : ℕ) (out : String)
      → expires_at_iso iso (some later) ttl ≡ ok out
      → out ≡ iso (later + ttl * 1000)
  unfolding expires_at_iso finite_clock_snapshot integer_clock_snapshot
  expires_at_iso-eq iso later ttl out h = ground arith

  pub commit_at-Stores :
      (consent : Consent) (scopes : List String) (code : String) (now later : ℕ) (clock' : Option ℕ)
      (s s' : MemoryStore) (r : ApproveResult)
      → clock' ≡ some later
      → now ≤ later
      → text_lt (platform.jwt.iso later) consent.expires_at ≡ true
      → commit_at platform config consent scopes code later s ≡ (ok r, s')
      → (r.code ≡ some code) × Stores consent now clock' code scopes s s'
  commit_at-Stores consent scopes code now later clock' s s' r reading forward in_date h =
      let (expires, printed, h0) =
        lift-passed
          (expires_at_iso platform.jwt.iso (some later) config.authorization_code_ttl_seconds)
          (commit_record platform config consent scopes code) r s s' h in
      let (outcome, s1, called, h1) =
        continue-passed
          (port "commitConsentApproval" (
            commit_consent_approval (or_empty consent.store_instance_id) consent.jti
              consent.expires_at (code_record platform config consent scopes code expires) s))
          (λ outcome. lift (approved_result platform config consent code outcome)) r s' h0 in
      let (kept, given) = outcome-passed consent code outcome r (ground (arith, h1)) in
      let committed =
        commit_atomic (or_empty consent.store_instance_id) consent.jti consent.expires_at
          (code_record platform config consent scopes code expires) s in
      let returned = port-passed "commitConsentApproval" _ outcome s1 called in
      let same : s1 ≡ s' = ground (arith, h1) in
      let date =
        expires_at_iso-eq platform.jwt.iso later config.authorization_code_ttl_seconds expires
          printed in
      elim committed [
        | inr (refused, unchanged) ↦ absurd (refused (cc (returned, kept)))
        | inl (done, matches, fresh, unswept, after) ↦ (
          given,
          record {
            later = later;
            reading = reading;
            forward = forward;
            in_date = in_date;
            fresh = fresh;
            after = rw (← date) (cc (returned, same, after));
          },
        )
      ]

  pub ceiling-eq :
      (given ceiling : Option (List String))
      → assert_allowed_scopes_ceiling given ≡ ok ceiling
      → given ≡ ceiling
  unfolding assert_allowed_scopes_ceiling
  ceiling-eq none ceiling h = ground arith
  ceiling-eq (some scopes) ceiling h = ground arith

  pub reading-passed :
      (clock : Option ℕ) (now : ℕ)
      → or_refused (finite_clock_snapshot clock 0) ≡ ok now
      → clock ≡ some now
  unfolding finite_clock_snapshot integer_clock_snapshot
  reading-passed none now h = ground arith
  reading-passed (some t) now h = ground arith

  required-passed : (o : Option String) (label v : String) → required o label ≡ ok v → o ≡ some v
  unfolding required
  required-passed none label v h = cc
  required-passed (some w) label v h = ground arith

  pub read_consent-passed :
      (input : ApproveInput) (now : ℕ) (consent : Consent)
      → read_consent platform config input now ≡ ok consent
      → (approve_origin_allowed platform config input.site ≡ true)
        × ((token : String) × (input.consent_token ≡ some token)
            × (verify_consent_token platform.jwt token now ≡ ok consent))
  unfolding assert_approve_origin
  read_consent-passed input now consent h =
      elim (Bool-cases (approve_origin_allowed platform config input.site)) [
        | inr foreign ↦ ground (arith, foreign)
        | inl fits ↦ elim (Result-cases (required input.consent_token "consent_token")) [
          | inr (e, bad) ↦ ground (arith, fits, bad)
          | inl (token, given) ↦ (
            fits,
            (
              token,
              required-passed input.consent_token "consent_token" token given,
              ground (arith, fits, given),
            ),
          )
        ]
      ]
