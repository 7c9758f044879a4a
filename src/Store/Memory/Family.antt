-- ===== src/Store/Memory/Family.antt =====
-- store/memory.ts: a revoked family of refresh tokens stays revoked, and a replay revokes it.
use mcp_sso.Common.{
  ℕ, String, List, [], ◌∷◌, Option, none, some, Bool, true, false, ◌≡◌, ◌≢◌, refl, inl, inr, arith,
  eq_iff, All, if◌then◌else◌,
}
use mcp_sso.Errors.{ok}
use mcp_sso.Dict.{Dict, get, IsMap}
use mcp_sso.Dict.Laws.{get-put}
use mcp_sso.Store.{SaveRefreshTokenInput}
use mcp_sso.Store.Checks.{assert_utc_iso_timestamp, is_utc_iso}
use mcp_sso.Store.Memory.State.{MemoryStore, StoredRefresh, StoredFamily, truthy}
use mcp_sso.Store.Memory.Codes.{
  rotate_store_instance_id, save_auth_code, consume_auth_code, consume_consent_jti,
}
use mcp_sso.Store.Memory.Tokens.{
  revoke_found, revoke_at, save_refresh_token, revoke_refresh_token_family, stamp_token, family_for,
}
use mcp_sso.Store.Memory.Rotation.{rotate_refresh_token, successor, consume_token}
use mcp_sso.Store.Memory.Expiry.{sweep_expired, sweep, drop_empty, has_member}
use mcp_sso.Store.Memory.Saving.{Inserts, save_cases, checked-IsNormal}
use mcp_sso.Store.Memory.SingleUse.{commit_atomic}
use mcp_sso.Store.Memory.Rotating.{rotate_cases, gave}
use mcp_sso.Store.Memory.Frame.{find-frame, find_scopes-frame}
use mcp_sso.Store.Memory.{
  Call, rotates_id, commits, saves_code, consumes_code, consumes_jti, saves_token, rotates, revokes,
  finds, finds_scopes, sweeps, closes, step, run, close,
}

-- The family is revoked, or the store has forgotten it.
abbrev pub is_dead : Option StoredFamily → Bool
is_dead none = true
is_dead (some f) = truthy f.revoked_at

abbrev pub IsDead : String → MemoryStore → Type 0
IsDead id s = is_dead (get id s.families) ≡ true

pub iso-ne-empty : (now label : String) → assert_utc_iso_timestamp now label ≡ ok tt → now ≢ ""
unfolding assert_utc_iso_timestamp is_utc_iso
iso-ne-empty now label h e = cc (rw e at h)

drop_empty-cons :
    (tokens : List StoredRefresh) (j : String) (f : StoredFamily) (d : Dict StoredFamily)
    → drop_empty tokens ((j, f) ∷ d)
      ≡ (if has_member tokens j then (j, f) ∷ drop_empty tokens d else drop_empty tokens d)
unfolding drop_empty
drop_empty-cons tokens j f d = refl

pub get-drop_empty :
    (tokens : List StoredRefresh) (id : String) (d : Dict StoredFamily)
    → get id (drop_empty tokens d) ≡ (if has_member tokens id then get id d else none)
unfolding get
get-drop_empty tokens id [] = unfold drop_empty in ground arith
get-drop_empty tokens id ((j, f) ∷ d) =
    rw drop_empty-cons (ground (arith, get-drop_empty tokens id d, eq_iff j id))

pub drop_empty-IsMap :
    (tokens : List StoredRefresh) (d : Dict StoredFamily) → IsMap d → IsMap (drop_empty tokens d)
drop_empty-IsMap tokens [] h = unfold drop_empty in tt
drop_empty-IsMap tokens ((j, f) ∷ d) (fresh, h) =
    rw drop_empty-cons (ground (arith, get-drop_empty tokens j d, drop_empty-IsMap tokens d h))

module _ (id : String) where
  insert-IsDead :
      (row : StoredRefresh) (s s' : MemoryStore)
      → row.family_id ≢ id
      → Inserts row s s'
      → IsDead id s
      → IsDead id s'
  insert-IsDead row s s' n ins h = ground (
    arith,
    ins.after,
    get-put row.family_id id (family_for row) s.families,
    eq_iff row.family_id id,
  )

  save-IsDead :
      (t : SaveRefreshTokenInput) (s : MemoryStore)
      → t.family_id ≢ id
      → IsDead id s
      → IsDead id (save_refresh_token t s).1
  save-IsDead t s n h = elim (save_cases t s) [
    | inl (same, _) ↦ rw same h
    | inr (input, e, _, ins) ↦
        let (normal, _) = checked-IsNormal t input e in
        insert-IsDead (stamp_token input) s _ (λ p. n (ground (arith, normal.same_but_resource)))
          ins h
  ]

  revoke_found-IsDead :
      (k now : String) (r : Option String) (found : Option StoredFamily) (s : MemoryStore)
      → get k s.families ≡ found
      → now ≢ ""
      → IsDead id s
      → IsDead id (revoke_found k now r found s)
  revoke_found-IsDead k now r none s e n h = h
  revoke_found-IsDead k now r (some f) s e n h =
      ground (arith, get-put k id (revoke_at now r f) s.families, eq_iff k id, eq_iff now "")

  revoke-IsDead :
      (k now : String) (r : Option String) (s : MemoryStore)
      → IsDead id s
      → IsDead id (revoke_refresh_token_family k now r s).1
  unfolding revoke_refresh_token_family
  revoke-IsDead k now r s h = ground (
    arith,
    iso-ne-empty now "revokedAtIso",
    revoke_found-IsDead k now r (get k s.families) s refl,
  )

  rotate-IsDead :
      (hash : String) (given : SaveRefreshTokenInput) (now : String) (g : Option ℕ)
      (r : Option String) (s : MemoryStore)
      → IsDead id s
      → IsDead id (rotate_refresh_token hash given now g r s).1
  rotate-IsDead hash given now g r s h = elim (rotate_cases hash now g r s given) [
    | inl (same, _) ↦ rw same h
    | inr (next, _, inl (t, f, found, used, after, _)) ↦
        rw after (revoke-IsDead t.family_id now none s h)
    | inr (next, _, inr (t, f, found, live, after, _)) ↦ rw after (
        save-IsDead (successor next t) (consume_token hash now t s)
          (λ p. ground (arith, found.family, found.bound, live.family)) h)
  ]

  sweep-IsDead : (now : String) (s : MemoryStore) → IsDead id s → IsDead id (sweep now s)
  unfolding sweep
  sweep-IsDead now s h = rw get-drop_empty (ground arith)

-- The calls that do not save a token of the family.
abbrev pub SparesFamily : String → Call → Type 0
SparesFamily id (saves_token t) = t.family_id ≢ id
SparesFamily id _ = Unit

module _ (id : String) where
  step-IsDead :
      (c : Call) (s : MemoryStore) → SparesFamily id c → IsDead id s → IsDead id (step c s)
  unfolding step
  step-IsDead (rotates_id fresh) s n h = unfold rotate_store_instance_id in ground arith
  step-IsDead (commits e k t code) s n h = ground (arith, commit_atomic e k t code s)
  step-IsDead (saves_code code) s n h = unfold save_auth_code in ground arith
  step-IsDead (consumes_code k now g r) s n h = unfold consume_auth_code in ground arith
  step-IsDead (consumes_jti k t) s n h = unfold consume_consent_jti in ground arith
  step-IsDead (saves_token t) s n h = save-IsDead id t s n h
  step-IsDead (rotates k next now g r) s n h = rotate-IsDead id k next now g r s h
  step-IsDead (revokes k now r) s n h = revoke-IsDead id k now r s h
  step-IsDead (finds k) s n h = ground (arith, find-frame k s)
  step-IsDead (finds_scopes a b now g r) s n h = ground (arith, find_scopes-frame a b now g r s)
  step-IsDead (sweeps now) s n h = unfold sweep_expired in ground (arith, sweep-IsDead id now s)
  step-IsDead closes s n h = unfold close in ground arith

  pub run-IsDead :
      (cs : List Call) (s : MemoryStore)
      → All (SparesFamily id) cs
      → IsDead id s
      → IsDead id (run cs s)
  unfolding run
  run-IsDead [] s n h = h
  run-IsDead (c ∷ cs) s n h = run-IsDead cs (step c s) n.1 (step-IsDead c s n.0 h)

-- No token of a dead family is rotated.
pub dead-not-rotated :
    (id hash now : String) (given : SaveRefreshTokenInput) (g : Option ℕ) (r : Option String)
    (s : MemoryStore) (t : StoredRefresh)
    → IsDead id s
    → get hash s.refresh_tokens ≡ some t
    → t.family_id ≡ id
    → gave (rotate_refresh_token hash given now g r s).0 ≡ false
dead-not-rotated id hash now given g r s t dead row e = elim (rotate_cases hash now g r s given) [
  | inl (_, quiet) ↦ quiet
  | inr (next, _, inl (t', f, found, used, after, quiet)) ↦ quiet
  | inr (next, _, inr (t', f, found, live, after, _)) ↦
      absurd (ground (arith, found.family, found.row, found.bound))
]
