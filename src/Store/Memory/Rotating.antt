-- ===== src/Store/Memory/Rotating.antt =====
-- store/memory.ts: the outcomes of a rotation.
use mcp_sso.Common.{
  ℕ, String, Option, none, some, Bool, true, false, not, ◌||◌, ◌==◌, ◌≡◌, refl, ◌⊎◌, inl, inr,
  arith, eq_iff, text_lt, Option-cases, Bool-cases,
}
use mcp_sso.Errors.{Thrown, Result, ok, err, Result-cases}
use mcp_sso.Dict.{get, has}
use mcp_sso.Store.{RefreshTokenRecord, SaveRefreshTokenInput}
use mcp_sso.Store.Checks.{assert_store_subject}
use mcp_sso.Store.Memory.State.{MemoryStore, StoredRefresh, StoredFamily, truthy}
use mcp_sso.Store.Memory.Tokens.{save_refresh_token, revoke_refresh_token_family}
use mcp_sso.Store.Memory.Rotation.{
  rotate_refresh_token, rotate_found, rotate_live, rotate_current, rotate_replayed, rotate_if,
  may_rotate, successor, consume_token, with_family, checked_next,
}

-- A row that the rotation may act on.
pub record IsFound (hash : String) (g : Option ℕ) (r : Option String) (s : MemoryStore)
    (t : StoredRefresh) (f : StoredFamily) : Type 0 where
  pub row : get hash s.refresh_tokens ≡ some t
  pub family : get t.family_id s.families ≡ some f
  pub subject : assert_store_subject t.subject "stored subject" ≡ ok tt
  pub bound : may_rotate g r t f ≡ true

-- A row that the rotation consumes, and a successor that it may save.
pub record IsLive (next : SaveRefreshTokenInput) (now : String) (s : MemoryStore)
    (t : StoredRefresh) : Type 0 where
  pub unused : truthy t.consumed_at ≡ false
  pub in_date : text_lt now t.expires_at ≡ true
  pub family : next.family_id ≡ t.family_id
  pub fresh : get next.token_hash s.refresh_tokens ≡ none

abbrev pub gave {ℓ} : {A : Type ℓ} → Result (Option A) → Bool
gave (ok (some a)) = true
gave _ = false

-- The state and the result of the save that ends a rotation.
abbrev pub after_save : StoredRefresh → Result (Unit {0}) → Result (Option RefreshTokenRecord)
after_save t (ok _) = ok (some t.token)
after_save t (err e) = err e

module _ (hash now : String) (g : Option ℕ) (r : Option String) (s : MemoryStore) where
  abbrev pub Refused : Result (Option RefreshTokenRecord) → MemoryStore → Type 0
  Refused res s' = (s' ≡ s) × (gave res ≡ false)

  abbrev pub Replayed : Result (Option RefreshTokenRecord) → MemoryStore → Type 0
  Replayed res s' =
      (t : StoredRefresh) × (f : StoredFamily) × IsFound hash g r s t f
      × (truthy t.consumed_at ≡ true)
      × (s' ≡ (revoke_refresh_token_family t.family_id now none s).1)
      × (gave res ≡ false)

  abbrev pub Rotated :
      SaveRefreshTokenInput → Result (Option RefreshTokenRecord) → MemoryStore → Type 0
  Rotated next res s' =
      (t : StoredRefresh) × (f : StoredFamily) × IsFound hash g r s t f
      × IsLive next now s t
      × (s' ≡ (save_refresh_token (successor next t) (consume_token hash now t s)).1)
      × (res ≡ after_save t (save_refresh_token (successor next t) (consume_token hash now t s)).0)

  abbrev pub Outcome :
      SaveRefreshTokenInput → Result (Option RefreshTokenRecord) × MemoryStore → Type 0
  Outcome next (res, s') = Refused res s' ⊎ (Replayed res s' ⊎ Rotated next res s')

  module _ (next : SaveRefreshTokenInput) (t : StoredRefresh) (f : StoredFamily)
      (found : IsFound hash g r s t f) where
    replayed-Outcome : truthy t.consumed_at ≡ true → Outcome next (rotate_replayed now t s)
    unfolding rotate_replayed
    replayed-Outcome used = inr (inl (t, f, found, used, ground arith, ground arith))

    live-Outcome : truthy t.consumed_at ≡ false → Outcome next (rotate_live hash next now t s)
    unfolding rotate_live rotate_current
    live-Outcome unused =
        elim (Bool-cases (
          not (text_lt now t.expires_at)
          || not (next.family_id == t.family_id)
          || has next.token_hash s.refresh_tokens)) [
            | inl stop ↦ rw stop (inl (refl, refl))
            | inr go ↦ rw go (
                inr (
                  inr (
                    t,
                    f,
                    found,
                    record {
                      unused = unused;
                      in_date = ground arith;
                      family = ground (arith, eq_iff next.family_id t.family_id);
                      fresh = ground arith;
                    },
                    ground arith,
                    ground arith,
                  )))
          ]

  rotate_found-Outcome :
      (next : SaveRefreshTokenInput) (t : StoredRefresh) (f : StoredFamily)
      → get hash s.refresh_tokens ≡ some t
      → get t.family_id s.families ≡ some f
      → Outcome next (rotate_found hash next now g r t f s)
  unfolding rotate_found
  rotate_found-Outcome next t f e h =
      elim (Result-cases (assert_store_subject t.subject "stored subject")) [
        | inr (x, bad) ↦ rw bad (inl (refl, refl))
        | inl (_, good) ↦ rw good (elim (Bool-cases (may_rotate g r t f)) [
          | inr no_ ↦ rw no_ (inl (refl, refl))
          | inl may ↦
              let found : IsFound hash g r s t f = record {
                row = e;
                family = h;
                subject = good;
                bound = may;
              } in
              rw may (elim (Bool-cases (truthy t.consumed_at)) [
                | inl used ↦ rw used (replayed-Outcome next t f found used)
                | inr unused ↦ rw unused (live-Outcome next t f found unused)
              ])
        ])
      ]

  rotate_if-Outcome :
      (next : SaveRefreshTokenInput)
      → Outcome next
          (rotate_if hash next now g r (with_family (get hash s.refresh_tokens) s.families) s)
  rotate_if-Outcome next = elim (Option-cases (get hash s.refresh_tokens)) [
    | inl e ↦ rw e (inl (refl, refl))
    | inr (t, e) ↦ rw e (elim (Option-cases (get t.family_id s.families)) [
      | inl h ↦ rw h (inl (refl, refl))
      | inr (f, h) ↦ rw h (rotate_found-Outcome next t f e h)
    ])
  ]

  rotate-checked :
      (given next : SaveRefreshTokenInput)
      → checked_next hash given now ≡ ok next
      → (gave (rotate_refresh_token hash given now g r s).0 ≡ false)
          × ((rotate_refresh_token hash given now g r s).1 ≡ s)
        ⊎ (rotate_refresh_token hash given now g r s
            ≡ rotate_if hash next now g r (with_family (get hash s.refresh_tokens) s.families) s)
  unfolding rotate_refresh_token
  rotate-checked given next e = ground arith

  rotate-unchecked :
      (given : SaveRefreshTokenInput) (x : Thrown)
      → checked_next hash given now ≡ err x
      → Refused
          (rotate_refresh_token hash given now g r s).0
          (rotate_refresh_token hash given now g r s).1
  unfolding rotate_refresh_token
  rotate-unchecked given x e = ground arith

  abbrev pub Acted :
      SaveRefreshTokenInput → Result (Option RefreshTokenRecord) × MemoryStore → Type 0
  Acted given (res, s') =
      Refused res s'
      ⊎ ((next : SaveRefreshTokenInput) × (checked_next hash given now ≡ ok next)
          × (Replayed res s' ⊎ Rotated next res s'))

  checked-Acted :
      (given next : SaveRefreshTokenInput) (out : Result (Option RefreshTokenRecord) × MemoryStore)
      → checked_next hash given now ≡ ok next
      → Outcome next out
      → Acted given out
  checked-Acted given next out e (inl refused) = inl refused
  checked-Acted given next out e (inr acted) = inr (next, e, acted)

  -- A rotation refuses and changes nothing; or it meets a consumed row and revokes its family; or
  -- it consumes the row and saves its successor. `next` is the checked form of the input.
  pub rotate_cases :
      (given : SaveRefreshTokenInput) → Acted given (rotate_refresh_token hash given now g r s)
  rotate_cases given = elim (Result-cases (checked_next hash given now)) [
    | inr (x, bad) ↦ inl (rotate-unchecked given x bad)
    | inl (next, good) ↦ elim (rotate-checked given next good) [
      | inl (quiet, same) ↦ inl (same, quiet)
      | inr e ↦ checked-Acted given next _ good (rw e (rotate_if-Outcome next))
    ]
  ]
