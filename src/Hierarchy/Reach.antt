-- ===== src/Hierarchy/Reach.antt =====
-- scope-hierarchy.ts: the search ends, and finds what can be reached.
use mcp_sso.Common.{
  ℕ, zero, suc, ◌+◌, ◌≤◌, ◌<◌, String, List, [], ◌∷◌, some, Bool, true, false, ◌||◌, ◌==◌, ◌≡◌,
  refl, inl, inr, arith, eq_iff, eq_refl, length, includes, Bool-cases, if◌then◌else◌,
}
use mcp_sso.Dict.{get}
use mcp_sso.Hierarchy.{Graph, implied_by, push_all, search, count_edges}

length-push_all : (ts ps : List String) → length (push_all ts ps) ≡ length ts + length ps
unfolding push_all
length-push_all [] ps = omega arith
length-push_all (t ∷ ts) ps = omega (arith, length-push_all ts (t ∷ ps))

pub includes-push_all :
    (ts ps : List String) (s : String)
    → includes (push_all ts ps) s ≡ (includes ts s || includes ps s)
unfolding push_all includes
includes-push_all [] ps s = refl
includes-push_all (t ∷ ts) ps s = ground (arith, includes-push_all ts (t ∷ ps) s)

-- The edges of the scopes that were not visited.
unfoldable edges_left : List String → Graph → ℕ
edges_left visited [] = 0
edges_left visited ((k, ts) ∷ g) =
    (if includes visited k then 0 else length ts) + edges_left visited g

edges_left-le :
    (current : String) (visited : List String) (g : Graph)
    → edges_left (current ∷ visited) g ≤ edges_left visited g
unfolding edges_left includes
edges_left-le current visited [] = omega arith
edges_left-le current visited ((k, ts) ∷ g) = ground (arith, edges_left-le current visited g)

edges_left-expanded :
    (current : String) (visited : List String) (g : Graph)
    → includes visited current ≡ false
    → edges_left (current ∷ visited) g + length (implied_by g current) ≤ edges_left visited g
unfolding edges_left includes get
edges_left-expanded current visited [] h = omega arith
edges_left-expanded current visited ((k, ts) ∷ g) h = ground (
  arith,
  h,
  edges_left-expanded current visited g,
  edges_left-le current visited g,
  eq_iff k current,
  eq_refl current,
  eq_iff current k,
)

-- Fuel above the pending scopes and the edges left is enough.
search_ends :
    (fuel : ℕ) (g : Graph) (required : String) (visited pending : List String)
    → length pending + edges_left visited g < fuel
    → (b : Bool) × (search fuel g required visited pending ≡ some b)
unfolding search
search_ends zero g required visited pending h = absurd (omega (arith, h))
search_ends (suc fuel) g required visited [] h = (false, refl)
search_ends (suc fuel) g required visited (current ∷ pending) h =
    elim (Bool-cases (includes visited current)) [
      | inl seen ↦
          let (b, e) = search_ends fuel g required visited pending (omega (arith, h)) in
          (b, ground (arith, seen, e))
      | inr new ↦
          let (b, e) =
            search_ends fuel g required (current ∷ visited)
              (push_all (implied_by g current) pending)
              (omega (
                arith,
                h,
                length-push_all (implied_by g current) pending,
                edges_left-expanded current visited g new,
              )) in
          elim (Bool-cases (current == required)) [
            | inl done ↦ (true, ground (arith, new, done))
            | inr other ↦ (b, ground (arith, new, other, e))
          ]
    ]

edges_left-start : (g : Graph) → edges_left [] g ≡ count_edges g
unfolding edges_left count_edges includes
edges_left-start [] = refl
edges_left-start ((k, ts) ∷ g) = omega (arith, edges_left-start g)

-- On every graph, cyclic or not, and from whatever scopes were granted, the search of hierarchyImplies ends
-- with an answer: one expansion of each scope, and as many steps as there are grants and edges, are enough.
pub search_from_granted_ends :
    (g : Graph) (granted : List String) (required : String)
    → (b : Bool) × (search
          (suc (length granted + count_edges g))
          g
          required
          []
          (push_all granted [])
        ≡ some b)
search_from_granted_ends g granted required =
    search_ends (suc (length granted + count_edges g)) g required [] (push_all granted [])
      (omega (arith, length-push_all granted [], edges_left-start g))

-- A scope implies itself, and what a scope that it implies directly implies.
pub data Implies (g : Graph) : String → String → Type 0 where
  itself : {s t : String} → s ≡ t → Implies g s t
  through :
      {s t : String} (m : String)
      → includes (implied_by g s) m ≡ true
      → Implies g m t
      → Implies g s t
