-- ===== src/Token/Refresh.antt =====
-- token.ts and port-result.ts: a refresh that throws after the rotation leaves no token of the family.
use mcp_sso.Common.{
  ℕ, String, List, Option, none, some, true, false, ◌≡◌, inl, inr, arith, is_text, All, Bool-cases,
}
use mathlib.Core.Path.{subst}
use mcp_sso.Errors.{Thrown, Result, ok, err, call_port, port_error, type_error, Result-cases}
use mcp_sso.Dict.{get}
use mcp_sso.Store.{RefreshTokenRecord, SaveRefreshTokenInput}
use mcp_sso.Store.Checks.{assert_utc_iso_timestamp}
use mcp_sso.Store.Memory.State.{MemoryStore, StoredRefresh, ensure_open}
use mcp_sso.Store.Memory.Tokens.{revoke_refresh_token_family}
use mcp_sso.Store.Memory.Rotation.{rotate_refresh_token, checked_next}
use mcp_sso.Store.Memory.Rotating.{gave}
use mcp_sso.Store.Memory.Frame.{rotate-SameRest}
use mcp_sso.Store.Memory.Family.{IsDead, SparesFamily, run-IsDead, dead-not-rotated}
use mcp_sso.Store.Memory.Valid.{IsValid}
use mcp_sso.Store.Memory.Writes.{rotate-IsValid}
use mcp_sso.Store.Memory.Revocation.{checked_now, revoke-IsDead}
use mcp_sso.Store.Memory.{Call, run}
use mcp_sso.Token.Env.{
  BridgeConfig, Platform, expected_generation, required, parse_refresh_family_id,
  generate_refresh_token, snapshot_refresh_token, valid_refresh_snapshot,
}
use mcp_sso.Token.Grants.{
  RefreshGrantInput, UserTokenResponse, refresh, rotate_refresh_token_snapshot, answer_rotated,
  revoke_and_throw, check_rotated, next_token,
}

-- A rotation that gave a token found the store open and the instant well formed.
rotated-open :
    (hash now : String) (given : SaveRefreshTokenInput) (g : Option ℕ) (r : Option String)
    (s s1 : MemoryStore) (t : RefreshTokenRecord)
    → rotate_refresh_token hash given now g r s ≡ (ok (some t), s1)
    → (s1.closed ≡ false) × (assert_utc_iso_timestamp now "revokedAtIso" ≡ ok tt)
unfolding rotate_refresh_token ensure_open
rotated-open hash now given g r s s1 t h =
    let kept = (rotate-SameRest hash given now g r s).closed in
    elim (Result-cases (checked_next hash given now)) [
      | inr (x, bad) ↦ ground (arith, h, bad)
      | inl (next, good) ↦
          (ground (arith, h, kept), checked_now hash now "revokedAtIso" given next good)
    ]

revoke-returns :
    (id now : String) (s : MemoryStore)
    → s.closed ≡ false
    → assert_utc_iso_timestamp now "revokedAtIso" ≡ ok tt
    → (revoke_refresh_token_family id now none s).0 ≡ ok tt
unfolding revoke_refresh_token_family ensure_open
revoke-returns id now s o h = ground (arith, o, h)

module _ (platform : Platform) (config : BridgeConfig) where
  revoke_and_throw-state :
      (A : Type 0) (family : String) (now : ℕ) (e : Thrown) (s : MemoryStore)
      → (revoke_and_throw platform config {A = A} family now e s).1
        ≡ (revoke_refresh_token_family family (platform.iso now) none s).1
  unfolding revoke_and_throw call_port
  revoke_and_throw-state A family now e s =
      elim (Result-cases (revoke_refresh_token_family family (platform.iso now) none s).0) [
        | inl (u, good) ↦ ground (arith, good)
        | inr (x, bad) ↦ ground (arith, bad)
      ]

  -- What a throw after the rotation leaves is the revocation of the family.
  throw_after-state :
      (input : RefreshGrantInput) (raw secret family : String) (now : ℕ) (s s1 s' : MemoryStore)
      (t : RefreshTokenRecord) (e : Thrown)
      → let next =
          next_token platform config input raw (generate_refresh_token family secret) family now in
        is_text input.grant_type "refresh_token" ≡ true
        → required input.refresh_token "refresh_token" ≡ ok raw
        → parse_refresh_family_id raw ≡ some family
        → rotate_refresh_token
            (platform.sha256_hex raw)
            next
            (platform.iso now)
            (expected_generation config)
            (some config.resource)
            s
          ≡ (ok (some t), s1)
        → refresh platform config input secret now s ≡ (err e, s')
        → s' ≡ (revoke_refresh_token_family family (platform.iso now) none s1).1
  unfolding refresh rotate_refresh_token_snapshot answer_rotated call_port
  throw_after-state input raw secret family now s s1 s' t e typed given parsed rotated failed =
      let next_raw = generate_refresh_token family secret in
      elim (Bool-cases (valid_refresh_snapshot t)) [
        | inr malformed ↦
            let x =
              port_error "StorePort" "rotateRefreshToken"
                (type_error "StorePort returned a malformed refresh-token record") in
            unfold snapshot_refresh_token in
            ground (
              arith,
              typed,
              given,
              parsed,
              rotated,
              malformed,
              failed,
              revoke_and_throw-state (Option RefreshTokenRecord) family now x s1,
            )
        | inl readable ↦ elim (Result-cases (check_rotated platform config input t next_raw now)) [
          | inr (x, bad) ↦
              unfold snapshot_refresh_token in
              ground (
                arith,
                typed,
                given,
                parsed,
                rotated,
                readable,
                bad,
                failed,
                revoke_and_throw-state UserTokenResponse family now x s1,
              )
          | inl (response, good) ↦
              unfold snapshot_refresh_token in
              ground (arith, typed, given, parsed, rotated, readable, good, failed)
        ]
      ]

  -- Where the store has rotated the presented token and the refresh throws all the same, the family is
  -- finished: from then on, through any calls that save no new token under its id, no token of the
  -- family is ever rotated, the successor that was not handed out among them.
  pub failed_refresh_ends_family :
      (input : RefreshGrantInput) (raw secret family : String) (now : ℕ) (s s1 s' : MemoryStore)
      (t : RefreshTokenRecord) (e : Thrown) (cs : List Call) (hash' now' : String)
      (given' : SaveRefreshTokenInput) (g' : Option ℕ) (r' : Option String) (t' : StoredRefresh)
      → let next =
          next_token platform config input raw (generate_refresh_token family secret) family now in
        IsValid s
        → is_text input.grant_type "refresh_token" ≡ true
        → required input.refresh_token "refresh_token" ≡ ok raw
        → parse_refresh_family_id raw ≡ some family
        → rotate_refresh_token
            (platform.sha256_hex raw)
            next
            (platform.iso now)
            (expected_generation config)
            (some config.resource)
            s
          ≡ (ok (some t), s1)
        → refresh platform config input secret now s ≡ (err e, s')
        → All (SparesFamily family) cs
        → get hash' (run cs s').refresh_tokens ≡ some t'
        → t'.family_id ≡ family
        → gave (rotate_refresh_token hash' given' now' g' r' (run cs s')).0 ≡ false
  failed_refresh_ends_family input raw secret family now s s1 s' t e cs hash' now' given' g' r' t' v
        typed given parsed rotated failed spare row same =
      let next =
        next_token platform config input raw (generate_refresh_token family secret) family now in
      let (is_open, dated) =
        rotated-open (platform.sha256_hex raw) (platform.iso now) next (expected_generation config)
          (some config.resource) s s1 t rotated in
      let after =
        throw_after-state input raw secret family now s s1 s' t e typed given parsed rotated
          failed in
      let v1 : IsValid s1 =
        subst (λ (m : Result (Option RefreshTokenRecord) × MemoryStore). IsValid m.1) rotated
          (rotate-IsValid (platform.sha256_hex raw) next (platform.iso now)
            (expected_generation config) (some config.resource) s v) in
      let dead : IsDead family s' = rw after (
        revoke-IsDead family (platform.iso now) none s1 v1 tt
          (revoke-returns family (platform.iso now) s1 is_open dated)) in
      dead-not-rotated family hash' now' given' g' r' (run cs s') t'
        (run-IsDead family cs s' spare dead) row same
