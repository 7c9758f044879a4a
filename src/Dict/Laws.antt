-- ===== src/Dict/Laws.antt =====
-- What the operations of a map do to its entries.
use mcp_sso.Common.{
  ◌+◌, ◌++◌, ◌≤◌, String, [], ◌∷◌, Option, none, some, Bool, true, any, Bool-cases, inl, inr, ◌==◌,
  ◌≡◌, refl, if◌then◌else◌, eq_iff, arith, length, All, is_none,
}
use mcp_sso.Dict.{Dict, get, put, remove, retain, values, IsMap}

module _ {ℓ} {V : Type ℓ} where
  pub get-put :
      (k j : String) (v : V) (d : Dict V) → get j (put k v d) ≡ (if k == j then some v else get j d)
  unfolding get put
  get-put k j v [] = refl
  get-put k j v ((i, w) ∷ d) = ground (arith, eq_iff k j, eq_iff i k, eq_iff i j, get-put k j v d)

  -- A key that is new goes to the end.
  pub put-fresh : (k : String) (v : V) (d : Dict V) → get k d ≡ none → put k v d ≡ d ++ (k, v) ∷ []
  unfolding get put
  put-fresh k v [] h = refl
  put-fresh k v ((j, w) ∷ d) h = ground (arith, put-fresh k v d)

  pub get-remove :
      (k j : String) (d : Dict V) → get j (remove k d) ≡ (if k == j then none else get j d)
  unfolding get remove
  get-remove k j [] = ground arith
  get-remove k j ((i, w) ∷ d) = ground (arith, eq_iff k j, eq_iff i k, eq_iff i j, get-remove k j d)

  -- An absent key stays absent.
  pub get-retain-none :
      (p : V → Bool) (k : String) (d : Dict V) → get k d ≡ none → get k (retain p d) ≡ none
  unfolding get retain
  get-retain-none p k [] h = refl
  get-retain-none p k ((j, v) ∷ d) h = ground (arith, get-retain-none p k d)

  -- An entry whose value passes stays.
  pub get-retain-some :
      (p : V → Bool) (k : String) (v : V) (d : Dict V)
      → get k d ≡ some v
      → p v ≡ true
      → get k (retain p d) ≡ some v
  unfolding get retain
  get-retain-some p k v [] h kept = cc
  get-retain-some p k v ((j, w) ∷ d) h kept = ground (arith, get-retain-some p k v d)

  -- What `retain` leaves of a lookup.
  abbrev pub only : (V → Bool) → Option V → Option V
  only p none = none
  only p (some v) = if p v then some v else none

  pub get-retain :
      (p : V → Bool) (k : String) (d : Dict V) → IsMap d → get k (retain p d) ≡ only p (get k d)
  unfolding get retain
  get-retain p k [] h = refl
  get-retain p k ((j, v) ∷ d) (fresh, h) =
      ground (arith, eq_iff j k, get-retain p k d h, get-retain-none p k d)

  pub put-IsMap : (k : String) (v : V) (d : Dict V) → IsMap d → IsMap (put k v d)
  unfolding put get
  put-IsMap k v [] h = (refl, tt)
  put-IsMap k v ((j, w) ∷ d) (fresh, h) =
      ground (arith, eq_iff j k, eq_iff k j, get-put k j v d, put-IsMap k v d h)

  pub remove-IsMap : (k : String) (d : Dict V) → IsMap d → IsMap (remove k d)
  unfolding remove
  remove-IsMap k [] h = tt
  remove-IsMap k ((j, w) ∷ d) (fresh, h) =
      ground (arith, eq_iff k j, get-remove k j d, remove-IsMap k d h)

  pub retain-IsMap : (p : V → Bool) (d : Dict V) → IsMap d → IsMap (retain p d)
  unfolding retain
  retain-IsMap p [] h = tt
  retain-IsMap p ((j, w) ∷ d) (fresh, h) = ground (arith, get-retain-none p j d, retain-IsMap p d h)

-- What holds of every value holds of each lookup, and the operations keep it.
module _ {ℓ κ} {V : Type ℓ} (P : V → Type κ) where
  pub All-get : (k : String) (v : V) (d : Dict V) → All P (values d) → get k d ≡ some v → P v
  unfolding get values
  All-get k v [] h e = cc
  All-get k v ((j, w) ∷ d) h e = ground (arith, All-get k v d h.1)

  pub All-put :
      (k : String) (v : V) (d : Dict V) → P v → All P (values d) → All P (values (put k v d))
  unfolding put values
  All-put k v [] p h = (p, tt)
  All-put k v ((j, w) ∷ d) p h = ground (arith, All-put k v d p h.1)

  pub All-remove : (k : String) (d : Dict V) → All P (values d) → All P (values (remove k d))
  unfolding remove values
  All-remove k [] h = tt
  All-remove k ((j, w) ∷ d) h = ground (arith, All-remove k d h.1)

  pub All-retain : (p : V → Bool) (d : Dict V) → All P (values d) → All P (values (retain p d))
  unfolding retain values
  All-retain p [] h = tt
  All-retain p ((j, w) ∷ d) h = ground (arith, All-retain p d h.1)

pub length-put {ℓ} :
    {V : Type ℓ} (k : String) (v : V) (d : Dict V)
    → length (put k v d) ≡ (if is_none (get k d) then length d + 1 else length d)
unfolding put get
length-put k v [] = refl
length-put k v ((j, w) ∷ d) = ground (arith, length-put k v d)

pub length-remove-le {ℓ} : {V : Type ℓ} (k : String) (d : Dict V) → length (remove k d) ≤ length d
unfolding remove
length-remove-le k [] = refl_le
  where
    refl_le : 0 ≤ 0
    refl_le = omega arith
length-remove-le k ((j, w) ∷ d) = ground (arith, length-remove-le k d)

module _ {ℓ} {V : Type ℓ} where
  -- A value that passes a test stands under a key.
  pub any-values :
      (p : V → Bool) (d : Dict V)
      → IsMap d
      → any p (values d) ≡ true
      → (k : String) × (v : V) × (get k d ≡ some v) × (p v ≡ true)
  unfolding get any values
  any-values p [] m h = cc
  any-values p ((j, w) ∷ d) (fresh, m) h = elim (Bool-cases (p w)) [
    | inl hit ↦ (j, w, ground (arith, eq_iff j j), hit)
    | inr miss ↦
        let (k, v, row, passed) = any-values p d m (ground (arith, h, miss)) in
        (k, v, ground (arith, row, fresh, eq_iff j k), passed)
  ]

  pub values-any :
      (p : V → Bool) (d : Dict V) (k : String) (v : V)
      → get k d ≡ some v
      → p v ≡ true
      → any p (values d) ≡ true
  unfolding get any values
  values-any p [] k v h q = cc
  values-any p ((j, w) ∷ d) k v h q = ground (arith, h, q, values-any p d k v)
