-- ===== src/Store/Memory/Outcomes.antt =====
-- store/memory.ts: what rotateRefreshToken does on each of its branches.
use mcp_sso.Common.{
  ℕ, String, Option, none, some, true, false, ◌≡◌, ◌≢◌, refl, ◌↔◌, ◌⊎◌, inl, inr, arith, eq_iff,
}
use mcp_sso.Errors.{Result, ok}
use mcp_sso.Dict.{get, put}
use mcp_sso.Dict.Laws.{get-put}
use mcp_sso.Store.{RefreshTokenRecord, SaveRefreshTokenInput, unbound_refresh_resource}
use mcp_sso.Store.Checks.{assert_store_subject}
use mcp_sso.Store.Memory.State.{MemoryStore, StoredRefresh, StoredFamily, truthy}
use mcp_sso.Store.Memory.Rotation.{rotate_refresh_token, is_bound, checked_next}
use mcp_sso.Store.Memory.Tokens.{revoke_refresh_token_family}
use mcp_sso.Store.Memory.Rotating.{IsFound, IsLive, gave, rotate_cases}
use mcp_sso.Store.Memory.Revocation.{rotate-replayed, checked_now}
use mcp_sso.Store.Memory.Success.{rotated, rotate_succeeds}
use mcp_sso.Store.Memory.Valid.{IsValid}
use mcp_sso.Store.Memory.Expected.{IsOf, IsOf-iff}

-- A row of a resource that is the family's and the expected one.
abbrev pub IsBoundTo : Option String → Option String → Option String → Type 0
IsBoundTo expected resource family =
    (x : String) × (resource ≡ some x)
    × (family ≡ some x)
    × (x ≢ unbound_refresh_resource)
    × ((expected ≡ none) ⊎ (expected ≡ some x))

-- A stored row that a rotation may act on: its family is there and not revoked, and both are of the
-- expected generation and resource.
pub record IsRotatable (hash : String) (g : Option ℕ) (r : Option String) (s : MemoryStore)
    (t : StoredRefresh) (f : StoredFamily) : Type 0 where
  pub row : get hash s.refresh_tokens ≡ some t
  pub family : get t.family_id s.families ≡ some f
  pub subject : assert_store_subject t.subject "stored subject" ≡ ok tt
  pub unrevoked : truthy f.revoked_at ≡ false
  pub family_generation : IsOf g f.grant_generation
  pub generation : IsOf g t.grant_generation
  pub resource : IsBoundTo r t.resource f.resource

IsBoundTo-iff :
    (expected resource family : Option String)
    → (is_bound expected resource family ≡ true) ↔ IsBoundTo expected resource family
IsBoundTo-iff expected none family = ((λ h. cc), (λ (x, h, k, n, m). cc))
IsBoundTo-iff expected (some r) none = ((λ h. ground arith), (λ (x, h, k, n, m). cc))
IsBoundTo-iff none (some r) (some f) = (
  (λ h. (
    r,
    refl,
    ground (arith, eq_iff f r),
    ground (arith, eq_iff r unbound_refresh_resource),
    inl refl,
  )),
  (λ (x, h, k, n, m). ground (arith, eq_iff f r, eq_iff r unbound_refresh_resource)),
)
IsBoundTo-iff (some e) (some r) (some f) = (
  (λ h. (
    r,
    refl,
    ground (arith, eq_iff f r),
    ground (arith, eq_iff r unbound_refresh_resource),
    inr (ground (arith, eq_iff r e)),
  )),
  (λ (x, h, k, n, m). ground (arith, eq_iff f r, eq_iff r e, eq_iff r unbound_refresh_resource)),
)

module _ (hash : String) (g : Option ℕ) (r : Option String) (s : MemoryStore) (t : StoredRefresh)
    (f : StoredFamily) where
  found-IsRotatable : IsFound hash g r s t f → IsRotatable hash g r s t f
  found-IsRotatable found = record {
    row = found.row;
    family = found.family;
    subject = found.subject;
    unrevoked = ground (arith, found.bound);
    family_generation = (IsOf-iff g f.grant_generation).0 (ground (arith, found.bound));
    generation = (IsOf-iff g t.grant_generation).0 (ground (arith, found.bound));
    resource = (IsBoundTo-iff r t.resource f.resource).0 (ground (arith, found.bound));
  }

  rotatable-IsFound : IsRotatable hash g r s t f → IsFound hash g r s t f
  rotatable-IsFound v = record {
    row = v.row;
    family = v.family;
    subject = v.subject;
    bound = ground (
      arith,
      v.unrevoked,
      (IsOf-iff g f.grant_generation).1 v.family_generation,
      (IsOf-iff g t.grant_generation).1 v.generation,
      (IsBoundTo-iff r t.resource f.resource).1 v.resource,
    );
  }

-- The store with the family of a row revoked.
abbrev pub family_revoked :
    (now : String) → MemoryStore → StoredRefresh → StoredFamily → MemoryStore
family_revoked now s t f = record s {
  families = put t.family_id (record f { revoked_at = some now }) s.families;
}

none_marked : (o : Option String) → o ≢ some "" → truthy o ≡ false → o ≡ none
none_marked none h k = refl
none_marked (some x) h k = ground (arith, eq_iff x "")

module _ (hash now : String) (next : SaveRefreshTokenInput) (g : Option ℕ) (r : Option String)
    (s : MemoryStore) where
  -- No row is there that a rotation may act on and that is consumed, or live.
  abbrev pub NothingToRotate : Type 0
  NothingToRotate = ¬ (
      (t : StoredRefresh) × (f : StoredFamily) × IsRotatable hash g r s t f
      × ((truthy t.consumed_at ≡ true) ⊎ IsLive next now s t))

  -- What a rotation with checked arguments does on an open store that is valid.
  abbrev pub IsOutcome : Result (Option RefreshTokenRecord) × MemoryStore → Type 0
  IsOutcome out =
      ((t : StoredRefresh) × (f : StoredFamily) × IsRotatable hash g r s t f
        × (truthy t.consumed_at ≡ true)
        × (out ≡ (ok none, family_revoked now s t f)))
      ⊎ (((t : StoredRefresh) × (f : StoredFamily) × IsRotatable hash g r s t f
            × IsLive next now s t
            × (out ≡ (ok (some t.token), rotated hash now next s t)))
          ⊎ (NothingToRotate × (out.1 ≡ s) × (gave out.0 ≡ false)))

module _ (hash now : String) (given next : SaveRefreshTokenInput) (g : Option ℕ) (r : Option String)
    (s : MemoryStore) (v : IsValid s) (is_open : s.closed ≡ false)
    (checked : checked_next hash given now ≡ ok next) where
  revokes_family :
      (t : StoredRefresh) (f : StoredFamily)
      → IsRotatable hash g r s t f
      → (revoke_refresh_token_family t.family_id now none s).1 ≡ family_revoked now s t f
  unfolding revoke_refresh_token_family
  revokes_family t f may = ground (
    arith,
    is_open,
    checked_now hash now "revokedAtIso" given next checked,
    may.family,
    none_marked f.revoked_at (v.marks t.family_id f may.family) may.unrevoked,
  )

  replay_revokes :
      (t : StoredRefresh) (f : StoredFamily)
      → IsRotatable hash g r s t f
      → truthy t.consumed_at ≡ true
      → rotate_refresh_token hash given now g r s ≡ (ok none, family_revoked now s t f)
  replay_revokes t f may used =
      let (_, given_none, after) =
        rotate-replayed hash now given next g r s t f is_open checked
          (rotatable-IsFound hash g r s t f may) used in
      ground (arith, given_none, after, revokes_family t f may)

  live_rotates :
      (t : StoredRefresh) (f : StoredFamily)
      → IsRotatable hash g r s t f
      → IsLive next now s t
      → rotate_refresh_token hash given now g r s ≡ (ok (some t.token), rotated hash now next s t)
  live_rotates t f may live =
      rotate_succeeds hash now given next g r s t f checked (v.filed hash t may.row)
        (rotatable-IsFound hash g r s t f may) live is_open

  -- The store that a replay leaves is another one.
  family_revoked-ne :
      (t : StoredRefresh) (f : StoredFamily)
      → IsRotatable hash g r s t f
      → family_revoked now s t f ≢ s
  family_revoked-ne t f may same =
      let fams : (family_revoked now s t f).families ≡ s.families = cc same in
      let there : get t.family_id (family_revoked now s t f).families ≡ some f =
        rw fams may.family in
      ground (
        arith,
        there,
        get-put t.family_id t.family_id (record f { revoked_at = some now }) s.families,
        eq_iff t.family_id t.family_id,
        none_marked f.revoked_at (v.marks t.family_id f may.family) may.unrevoked,
      )

  refused_nothing :
      (rotate_refresh_token hash given now g r s).1 ≡ s
      → gave (rotate_refresh_token hash given now g r s).0 ≡ false
      → NothingToRotate hash now next g r s
  refused_nothing same quiet (t, f, may, inl used) =
      family_revoked-ne t f may (cc (same, replay_revokes t f may used))
  refused_nothing same quiet (t, f, may, inr live) =
      ground (arith, quiet, live_rotates t f may live)

  -- A rotation with arguments that pass the checks, on an open store that is valid, does one of three
  -- things. Where the row is of an unrevoked family and both are of the expected generation and
  -- resource, and the row is consumed, it returns nothing and dates the family's revocation. Where
  -- such a row is unused and in date, and the successor is of its family and its hash is free, it
  -- returns the record, dates the row and saves the successor with the row's own grant. In every
  -- other case it returns nothing, or throws, and changes nothing.
  pub rotate_outcomes : IsOutcome hash now next g r s (rotate_refresh_token hash given now g r s)
  rotate_outcomes = elim (rotate_cases hash now g r s given) [
    | inl (same, quiet) ↦ inr (inr (refused_nothing same quiet, same, quiet))
    | inr (_, _, inl (t, f, found, used, _, _)) ↦
        let may = found-IsRotatable hash g r s t f found in
        inl (t, f, may, used, replay_revokes t f may used)
    | inr (other, c, inr (t, f, found, live, _, _)) ↦
        let may = found-IsRotatable hash g r s t f found in
        let same : other ≡ next = ground (arith, c, checked) in
        let alive : IsLive next now s t = rw (← same) live in
        inr (inl (t, f, may, alive, live_rotates t f may alive))
  ]
