-- ===== src/Token/Code.antt =====
-- token.ts: what an exchange of an authorization code requires and leaves.
use mcp_sso.Common.{
  ℕ, String, List, Option, none, some, true, false, not, ◌≡◌, refl, inl, inr, arith, eq_iff, Within,
  is_text, text_lt,
}
use mcp_sso.Errors.{require-passed, bind-passed, ok, Result-cases, require}
use mcp_sso.Exec.{continue-passed}
use mcp_sso.Subject.{is_machine_subject}
use mcp_sso.Dict.{get, remove}
use mcp_sso.Dict.Laws.{get-remove}
use mcp_sso.Store.{AuthCodeRecord}
use mcp_sso.Store.Memory.State.{MemoryStore}
use mcp_sso.Store.Memory.SingleUse.{consume_sound}
use mcp_sso.Store.Memory.Frame.{save-SameRest}
use mcp_sso.Scopes.{stored_scopes}
use mcp_sso.Scopes.Laws.{stored_scopes_sound}
use mcp_sso.Token.Env.{
  BridgeConfig, Platform, expected_generation, required, verify_pkce_s256, snapshot_auth_code,
  generate_refresh_token,
}
use mcp_sso.Token.Grants.{
  AuthorizationCodeGrantInput, UserTokenResponse, consume_valid_code, check_code, issue_tokens,
  exchange_authorization_code, token_response, bad_code, consumed, check_found, redeem, reserved,
  issue_checked, family_of_new, respond, save_first, first_token, exchange_from, is_of_deployment,
  has_good_entry, is_asked_by, with_verifier, check_verifier, check_asked, check_entry,
}
use mcp_sso.Token.Port.{port-passed}

module _ (platform : Platform) (config : BridgeConfig) (input : AuthorizationCodeGrantInput)
    (now : ℕ) where
  -- The code that a request redeems fits the request.
  pub record Redeems (code : String) (s : MemoryStore) (c : AuthCodeRecord) : Type 0 where
    pub presented : input.code ≡ some code
    pub stored : get (platform.sha256_hex code) s.auth_codes ≡ some c
    pub in_date : text_lt (platform.iso now) c.expires_at ≡ true
    pub client : input.client_id ≡ some c.client_id
    pub redirect : input.redirect_uri ≡ some c.redirect_uri
    pub resource : c.resource ≡ config.resource
    pub verifier :
        (v : String) × (input.code_verifier ≡ some v)
        × (verify_pkce_s256 platform v c.code_challenge ≡ true)

  text_of : (o : Option String) (v : String) → is_text o v ≡ true → o ≡ some v
  text_of none v h = cc
  text_of (some w) v h = ground (arith, eq_iff w v)

  required_of : (o : Option String) (label v : String) → required o label ≡ ok v → o ≡ some v
  unfolding required
  required_of none label v h = cc
  required_of (some w) label v h = ground arith

  snapshot_of :
      (found : Option AuthCodeRecord) (c : AuthCodeRecord)
      → snapshot_auth_code found ≡ some c
      → found ≡ some c
  unfolding snapshot_auth_code
  snapshot_of none c h = cc
  snapshot_of (some d) c h = ground arith

  abbrev pub Checked : Option AuthCodeRecord → AuthCodeRecord → Type 0
  Checked found c =
      (found ≡ some c)
      × (c.resource ≡ config.resource)
      × (input.client_id ≡ some c.client_id)
      × (input.redirect_uri ≡ some c.redirect_uri)
      × ((v : String) × (input.code_verifier ≡ some v)
          × (verify_pkce_s256 platform v c.code_challenge ≡ true))

  check_code-passed :
      (found : Option AuthCodeRecord) (c : AuthCodeRecord)
      → check_code platform config input found ≡ ok c
      → Checked found c
  unfolding check_code
  check_code-passed none c h = cc
  check_code-passed (some d) c h =
      let (bound, h1) =
        require-passed (is_of_deployment platform config d) bad_code
          (check_entry platform config input d) c h in
      let (entry, h2) =
        require-passed (has_good_entry platform config d) bad_code
          (check_asked platform config input d) c h1 in
      let (asked, h3) =
        require-passed (is_asked_by platform config input d) bad_code
          (check_verifier platform config input d) c h2 in
      let (v, given, h4) =
        bind-passed (required input.code_verifier "code_verifier") (with_verifier platform config d)
          c h3 in
      let (proved, same) =
        require-passed (verify_pkce_s256 platform v d.code_challenge) bad_code (ok d) c h4 in
      let e : d ≡ c = ground (arith, same) in
      let client : is_text input.client_id d.client_id ≡ true = ground (arith, asked) in
      let redirect : is_text input.redirect_uri d.redirect_uri ≡ true = ground (arith, asked) in
      rw (← e) (
        refl,
        ground (arith, bound, eq_iff d.resource config.resource),
        text_of input.client_id d.client_id client,
        text_of input.redirect_uri d.redirect_uri redirect,
        (v, required_of input.code_verifier "code_verifier" v given, proved),
      )

  pub consume_valid_code-Redeems :
      (s s' : MemoryStore) (c : AuthCodeRecord)
      → consume_valid_code platform config input now s ≡ (ok c, s')
      → (code : String) × Redeems code s c
        × (s' ≡ record s { auth_codes = remove (platform.sha256_hex code) s.auth_codes })
  unfolding consume_valid_code
  consume_valid_code-Redeems s s' c h =
      let (code, s0, presented, h0) =
        continue-passed (required input.code "code", s) (redeem platform config input now) c s' h in
      let (found, s1, taken, h1) =
        continue-passed (consumed platform config code now s0) (check_found platform config input) c
          s' h0 in
      let (shown, resource, client, redirect, verifier) =
        check_code-passed (snapshot_auth_code found) c (ground (arith, h1)) in
      let (stored, in_date, generation, bound, after) =
        consume_sound (platform.sha256_hex code) (platform.iso now) (expected_generation config)
          (some config.resource) s s1 c
          (ground (
            arith,
            presented,
            port-passed "consumeAuthCode" _ found s1 taken,
            snapshot_of found c shown,
          )) in
      (
        code,
        record {
          presented = required_of input.code "code" code (ground (arith, presented));
          stored = stored;
          in_date = in_date;
          client = client;
          redirect = redirect;
          resource = resource;
          verifier = verifier;
        },
        ground (arith, after, h1),
      )

  catalog_of_response :
      (c : AuthCodeRecord) (raw : String) (out : UserTokenResponse × List String)
      → token_response platform config c.subject c.client_id c.scopes raw now ≡ ok out
      → Within config.scope_catalog c.scopes
  unfolding token_response
  catalog_of_response c raw out h =
      elim (Result-cases (stored_scopes c.scopes config.scope_catalog)) [
        | inr (x, bad) ↦ ground (arith, bad)
        | inl (r, good) ↦
            let (same, within) = stored_scopes_sound c.scopes config.scope_catalog r good in
            rw (← same) within
      ]

  issue_tokens-passed :
      (raw : String) (s s' : MemoryStore) (c : AuthCodeRecord) (response : UserTokenResponse)
      → issue_tokens platform config c raw now s ≡ (ok response, s')
      → (is_machine_subject c.subject ≡ false)
        × Within config.scope_catalog c.scopes
        × (s'.auth_codes ≡ s.auth_codes)
  unfolding issue_tokens
  issue_tokens-passed raw s s' c response h =
      let (_, s0, human, h0) =
        continue-passed (require (not (is_machine_subject c.subject)) reserved, s)
          (issue_checked platform config c raw now) response s' h in
      let (family, s1, made, h1) =
        continue-passed (family_of_new platform config raw, s0) (respond platform config c raw now)
          response s' h0 in
      let (out, s2, prepared, h2) =
        continue-passed (token_response platform config c.subject c.client_id c.scopes raw now, s1)
          (save_first platform config c raw now family) response s' h1 in
      (
        ground (arith, human),
        catalog_of_response c raw out (ground (arith, prepared)),
        ground (
          arith,
          human,
          made,
          prepared,
          save-SameRest (first_token platform config c out.1 raw family now) s2,
        ),
      )

  -- An exchange that returns tokens redeemed a stored code of this deployment that was in date, with
  -- the client, the redirect URI and a PKCE verifier that belong to it; its subject is no machine
  -- client's, its scopes are in the catalog, and the code is gone.
  pub exchange_sound :
      (family secret : String) (s s' : MemoryStore) (response : UserTokenResponse)
      → exchange_authorization_code platform config input family secret now s ≡ (ok response, s')
      → (code : String) × (c : AuthCodeRecord) × Redeems code s c
        × (is_machine_subject c.subject ≡ false)
        × Within config.scope_catalog c.scopes
        × (get (platform.sha256_hex code) s'.auth_codes ≡ none)
  unfolding exchange_authorization_code
  exchange_sound family secret s s' response h =
      let (_, s0, granted, h0) =
        continue-passed _ (exchange_from platform config input family secret now) response s' h in
      let (c, s1, taken, h1) =
        continue-passed (consume_valid_code platform config input now s0)
          (λ c. issue_tokens platform config c (generate_refresh_token family secret) now) response
          s' h0 in
      let same : s0 ≡ s = ground (arith, granted) in
      let (code, redeems, after) = consume_valid_code-Redeems s s1 c (rw (← same) taken) in
      let (human, within, kept) =
        issue_tokens-passed (generate_refresh_token family secret) s1 s' c response h1 in
      (
        code,
        c,
        redeems,
        human,
        within,
        ground (
          arith,
          kept,
          after,
          get-remove (platform.sha256_hex code) (platform.sha256_hex code) s.auth_codes,
          eq_iff (platform.sha256_hex code) (platform.sha256_hex code),
        ),
      )
