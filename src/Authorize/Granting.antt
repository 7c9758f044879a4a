-- ===== src/Authorize/Granting.antt =====
-- authorize.ts: what an approval that returns has checked, and what it has stored.
use mcp_sso.Common.{
  ℕ, String, List, ◌++◌, Option, none, some, true, false, ◌≡◌, ◌⊎◌, inl, inr, arith, Bool-cases,
  if◌then◌else◌,
}
use mcp_sso.Errors
use mcp_sso.Errors.{ok}
use mcp_sso.Exec.{continue-passed, lift-passed, lift, pure, ◌>>=◌}
use mcp_sso.Scopes.{stored_scopes, assert_allowed_scopes_ceiling}
use mcp_sso.Scopes.Laws.{stored_scopes_sound}
use mcp_sso.Clock.{finite_clock_snapshot}
use mcp_sso.Consent.{Consent, verify_consent_token}
use mcp_sso.Store.Memory.State.{MemoryStore}
use mcp_sso.Authorize.Env.{AuthorizeConfig, AuthorizePlatform}
use mcp_sso.Authorize.Client.{approve_origin_allowed}
use mcp_sso.Authorize.Prepare.{prior_grants}
use mcp_sso.Authorize.Approve.{
  ApproveInput, ApproveResult, approve, approve_at, read_consent, decide, check_consent, grant,
  with_consented, with_ceiling, commit_scopes, commit_at, unexpired, approval_commit_now,
  granted_scopes, dedupe, or_refused, denied,
}
use mcp_sso.Authorize.Frame.{
  prior_grants-frame, includes-granted_scopes, narrowed-UnderCeiling, narrowed-IsGranted,
  dedupe-IsGranted,
}
use mcp_sso.Authorize.Checks.{
  IsCurrent, AreScopes, Stores, check_consent-IsCurrent, unexpired-passed, commit_at-Stores,
  ceiling-eq, reading-passed, read_consent-passed,
}

module _ (platform : AuthorizePlatform) (config : AuthorizeConfig) where
  -- What an approved consent leaves.
  abbrev pub Granted :
      Consent
      → (now : ℕ) → (clock' : Option ℕ) → (code : String) → ApproveResult
      → MemoryStore
      → MemoryStore
      → Type 0
  Granted consent now clock' code r s s' =
      (r.code ≡ some code)
      × ((scopes : List String) × AreScopes platform config consent now s scopes
          × Stores platform config consent now clock' code scopes s s')

  grant-Granted :
      (consent : Consent) (now : ℕ) (clock' : Option ℕ) (code : String) (r : ApproveResult)
      (s s' : MemoryStore)
      → grant platform config consent now clock' code s ≡ (ok r, s')
      → Granted consent now clock' code r s s'
  unfolding grant
  grant-Granted consent now clock' code r s s' h =
      let (consented, c0, h0) =
        lift-passed (stored_scopes consent.scopes config.scope_catalog)
          (with_consented platform config consent now clock' code) r s s' h in
      let (ceiling, c1, h1) =
        lift-passed (assert_allowed_scopes_ceiling consent.allowed_scopes)
          (with_ceiling platform config consent now clock' code consented) r s s' h0 in
      let (prior, s1, c2, h2) =
        continue-passed
          ((prior_grants platform config consent.subject consent.client_id (some now) >>= λ raw.
              lift (stored_scopes raw config.scope_catalog))
            s)
          (commit_scopes platform config consent now clock' code ceiling consented) r s' h1 in
      let (raw, s2, c3, h3) =
        continue-passed
          (prior_grants platform config consent.subject consent.client_id (some now) s)
          (λ raw. lift (stored_scopes raw config.scope_catalog)) prior s1 c2 in
      let (later, timed, h4) =
        lift-passed
          (Errors.◌>>=◌ (approval_commit_now clock' config.authorization_code_ttl_seconds now)
            (unexpired platform config consent))
          (commit_at platform config consent (granted_scopes ceiling consented prior) code) r s1 s'
          h2 in
      let (reading, forward, in_date) =
        unexpired-passed platform config consent clock' config.authorization_code_ttl_seconds now
          later timed in
      let (same_consented, within_consented) =
        stored_scopes_sound consent.scopes config.scope_catalog consented c0 in
      let (same_prior, within_prior) =
        stored_scopes_sound raw config.scope_catalog prior (ground (arith, h3)) in
      let kept : s1 ≡ s = ground (
        arith,
        h3,
        c3,
        prior_grants-frame platform config consent.subject consent.client_id (some now) s,
      ) in
      let same_ceiling = ceiling-eq platform config consent.allowed_scopes ceiling c1 in
      let scopes = granted_scopes ceiling consented prior in
      let (given, stores) =
        commit_at-Stores platform config consent scopes code now later clock' s1 s' r reading
          forward in_date h4 in
      (
        given,
        (
          scopes,
          record {
            prior = prior;
            read = cc (c3, same_prior);
            union = cc (same_consented, same_ceiling);
            exact = λ w.
                includes-granted_scopes ceiling consent.allowed_scopes consented consent.scopes
                  prior w same_ceiling same_consented;
            catalog =
                narrowed-IsGranted config.scope_catalog ceiling (dedupe (consented ++ prior)) (
                  dedupe-IsGranted config.scope_catalog consented prior within_consented
                    within_prior);
            ceiling = rw same_ceiling (narrowed-UnderCeiling ceiling (dedupe (consented ++ prior)));
          },
          rw (← kept) stores,
        ),
      )

  -- An approval that returns had an allowed Origin and a consent token that verifies, and the consent fits
  -- the present configuration and the store. A denial returns no code and changes nothing. An approval
  -- returns the code and stores it once, under a consent id that was not used, before the consent
  -- expires, bound to the consent's client, subject, redirect URI, resource and challenge, with
  -- exactly the consented and prior scopes that the ceiling holds, all of them in the catalog.
  pub approve_sound :
      (input : ApproveInput) (clock clock' : Option ℕ) (code : String) (r : ApproveResult)
      (s s' : MemoryStore)
      → approve platform config input clock clock' code s ≡ (ok r, s')
      → (now : ℕ) × (token : String) × (consent : Consent) × (clock ≡ some now)
        × (input.consent_token ≡ some token)
        × (verify_consent_token platform.jwt token now ≡ ok consent)
        × (approve_origin_allowed platform config input.site ≡ true)
        × IsCurrent platform config consent s
        × (((input.approved ≡ false) × (r.code ≡ none) × (s' ≡ s))
            ⊎ ((input.approved ≡ true) × Granted consent now clock' code r s s'))
  unfolding approve
  approve_sound input clock clock' code r s s' h =
      let (now, read, h0) =
        lift-passed (or_refused (finite_clock_snapshot clock 0))
          (approve_at platform config input clock' code) r s s' h in
      let (consent, c1, h1) =
        lift-passed (read_consent platform config input now)
          (decide platform config input now clock' code) r s s' h0 in
      let (u, s1, c2, h2) =
        continue-passed (check_consent platform config consent s)
          (λ _.
            if input.approved
            then grant platform config consent now clock' code
            else pure (denied platform config consent))
          r s' h1 in
      let (current, kept) = check_consent-IsCurrent platform config consent s s1 c2 in
      let (origin_fits, given) = read_consent-passed platform config input now consent c1 in
      let (token, presented, verified) = given in
      (
        now,
        token,
        consent,
        reading-passed platform config clock now read,
        presented,
        verified,
        origin_fits,
        current,
        elim (Bool-cases input.approved) [
          | inl yes_given ↦ inr (
            yes_given,
            grant-Granted consent now clock' code r s s' (ground (arith, yes_given, h2, kept)),
          )
          | inr denied_by ↦
              inl (denied_by, ground (arith, denied_by, h2), ground (arith, denied_by, h2, kept))
        ],
      )
