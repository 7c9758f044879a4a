-- ===== src/Hierarchy/Laws.antt =====
-- scope-hierarchy.ts: what hierarchyImplies finds is exactly what the policy implies.
use mcp_sso.Common.{
  ℕ, zero, suc, ◌+◌, String, List, [], ◌∷◌, Option, none, some, Bool, true, false, ◌||◌, ◌==◌, ◌≡◌,
  refl, inl, inr, ◌↔◌, arith, eq_iff, eq_refl, length, includes, Bool-cases,
}
use mcp_sso.Hierarchy.{Graph, implied_by, push_all, search, count_edges, found, hierarchy_implies}
use mcp_sso.Hierarchy.Reach.{Implies, itself, through, includes-push_all, search_from_granted_ends}

-- Some scope of the list implies the required one.
abbrev pub Grants : Graph → (granted : List String) → (required : String) → Type 0
Grants g granted required = (s : String) × (includes granted s ≡ true) × Implies g s required

module _ (g : Graph) (required : String) where
  search_sound :
      (fuel : ℕ) (visited pending : List String)
      → search fuel g required visited pending ≡ some true
      → Grants g pending required
  unfolding search
  search_sound zero visited pending h = cc
  search_sound (suc fuel) visited [] h = ground arith
  search_sound (suc fuel) visited (current ∷ pending) h =
      elim (Bool-cases (includes visited current)) [
        | inl seen ↦
            let (s, inside, p) = search_sound fuel visited pending (ground (arith, h, seen)) in
            (s, unfold includes in ground (arith, inside), p)
        | inr new ↦ elim (Bool-cases (current == required)) [
          | inl done ↦ (
            current,
            unfold includes in ground (arith, eq_refl current),
            itself ((eq_iff current required).0 done),
          )
          | inr other ↦
              let (s, inside, p) =
                search_sound fuel (current ∷ visited) (push_all (implied_by g current) pending)
                  (ground (arith, h, new, other)) in
              elim (Bool-cases (includes (implied_by g current) s)) [
                | inl direct ↦ (
                  current,
                  unfold includes in ground (arith, eq_refl current),
                  through s direct p,
                )
                | inr elsewhere ↦ (
                  s,
                  unfold includes in
                      ground (
                        arith,
                        inside,
                        elsewhere,
                        includes-push_all (implied_by g current) pending s,
                      ),
                  p,
                )
              ]
        ]
      ]

  -- What a visited scope implies directly is visited or pending.
  abbrev IsClosed : (visited pending : List String) → Type 0
  IsClosed visited pending =
      (v t : String)
      → includes visited v ≡ true
      → includes (implied_by g v) t ≡ true
      → (includes visited t || includes pending t) ≡ true

  closed_reaches :
      (visited : List String)
      → IsClosed visited []
      → {s t : String} → Implies g s t
      → includes visited s ≡ true
      → includes visited t ≡ true
  closed_reaches visited c (itself p) h = cc (p, h)
  closed_reaches visited c (through m direct p) h =
      closed_reaches visited c p (unfold includes in ground (arith, c _ m h direct))

  IsClosed-expanded :
      (current : String) (visited pending : List String)
      → IsClosed visited (current ∷ pending)
      → IsClosed (current ∷ visited) (push_all (implied_by g current) pending)
  unfolding includes
  IsClosed-expanded current visited pending c v t a b = elim (Bool-cases (current == v)) [
    | inl same ↦
        let q : current ≡ v = (eq_iff current v).0 same in
        let direct : includes (implied_by g current) t ≡ true = cc (q, b) in
        ground (arith, direct, includes-push_all (implied_by g current) pending t)
    | inr other ↦ ground (
      arith,
      c v t (ground (arith, a, other)) b,
      includes-push_all (implied_by g current) pending t,
    )
  ]

  search_complete :
      (fuel : ℕ) (visited pending : List String)
      → search fuel g required visited pending ≡ some false
      → IsClosed visited pending
      → includes visited required ≡ false
      → (s : String) → (includes visited s || includes pending s) ≡ true
      → Implies g s required
      → ⊥
  unfolding search includes
  search_complete zero visited pending h c out s inside p = cc
  search_complete (suc fuel) visited [] h c out s inside p =
      let reached = closed_reaches visited c p (ground (arith, inside)) in cc (reached, out)
  search_complete (suc fuel) visited (current ∷ pending) h c out s inside p =
      elim (Bool-cases (includes visited current)) [
        | inl seen ↦
            search_complete fuel visited pending (ground (arith, h, seen))
              (λ v t a b. ground (arith, c v t a b, seen, eq_iff current t)) out s
              (ground (arith, inside, seen, eq_iff current s)) p
        | inr new ↦ elim (Bool-cases (current == required)) [
          | inl done ↦ ground (arith, h, new, done)
          | inr other ↦
              search_complete fuel (current ∷ visited) (push_all (implied_by g current) pending)
                (ground (arith, h, new, other)) (IsClosed-expanded current visited pending c)
                (ground (arith, other, out)) s
                (ground (arith, inside, includes-push_all (implied_by g current) pending s)) p
        ]
      ]

found_of : (b : Bool) (o : Option Bool) → o ≡ some b → found o ≡ true → b ≡ true
found_of b none h k = cc
found_of b (some c) h k = ground arith

-- A policy gives a required scope exactly where some granted scope implies it, through any number of
-- direct implications; without a policy nothing is implied.
pub hierarchy_implies_iff :
    (g : Graph) (granted : List String) (required : String)
    → ((hierarchy_implies (some g) granted required ≡ true) ↔ Grants g granted required)
      × (hierarchy_implies none granted required ≡ false)
unfolding hierarchy_implies
hierarchy_implies_iff g granted required =
    let (b, ended) = search_from_granted_ends g granted required in
    let fuel = suc (length granted + count_edges g) in
    (
      (
        (λ h.
            let (s, inside, p) =
              search_sound g required fuel [] (push_all granted [])
                (cc (ended, found_of b _ ended h)) in
            (s, unfold includes in ground (arith, inside, includes-push_all granted [] s), p)),
        (λ (s, inside, p). elim (Bool-cases b) [
          | inl yes_found ↦ ground (arith, ended, yes_found)
          | inr missed ↦ absurd (
              search_complete g required fuel [] (push_all granted []) (cc (ended, missed))
                (λ v t a c. unfold includes in ground (arith, a)) (unfold includes in refl) s
                (unfold includes in ground (arith, inside, includes-push_all granted [] s)) p)
        ]),
      ),
      refl,
    )
