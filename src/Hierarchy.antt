-- ===== src/Hierarchy.antt =====
-- scope-hierarchy.ts: which scopes a granted scope implies, over a graph that was validated.
-- A policy here is its graph; Snapshot has the rows' validation at boot, without its test for cycles.
pub mod Laws
pub mod Reach
pub mod Snapshot
pub mod Valid
mod Tests
use mcp_sso.Common.{
  ℕ, zero, suc, ◌+◌, String, List, [], ◌∷◌, Option, none, some, Bool, true, false, ◌==◌, length,
  includes, if◌then◌else◌,
}
use mcp_sso.Dict.{Dict, get}

-- Each scope with the scopes that it implies directly.
abbrev pub Graph : Type 0
Graph = Dict (List String)

abbrev pub or_none : Option (List String) → List String
or_none none = []
or_none (some ts) = ts

-- `graph.get(scope) ?? []`
abbrev pub implied_by : Graph → String → List String
implied_by g scope = or_none (get scope g)

-- The loop's pushes, in their order: the last one is popped first.
unfoldable pub push_all : List String → List String → List String
push_all [] pending = pending
push_all (t ∷ ts) pending = push_all ts (t ∷ pending)

-- The loop of `hierarchyImplies`. The head of `pending` is popped; `none` is out of fuel.
unfoldable pub search :
    ℕ → Graph → (required : String) → (visited pending : List String) → Option Bool
unfolding get includes push_all
search zero g required visited pending = none
search (suc fuel) g required visited [] = some false
search (suc fuel) g required visited (current ∷ pending) =
    let skipped = search fuel g required visited pending in
    let expanded =
      search fuel g required (current ∷ visited) (push_all (implied_by g current) pending) in
    if includes visited current
    then skipped
    else if current == required
    then some true
    else expanded

-- Each scope is expanded once, so no more is popped than was granted and the edges.
unfoldable pub count_edges : Graph → ℕ
count_edges [] = 0
count_edges ((k, ts) ∷ g) = length ts + count_edges g

abbrev pub found : Option Bool → Bool
found none = false
found (some b) = b

unfoldable pub hierarchy_implies :
    Option Graph → (granted : List String) → (required : String) → Bool
unfolding search count_edges push_all
hierarchy_implies none granted required = false
hierarchy_implies (some g) granted required =
    found (search (suc (length granted + count_edges g)) g required [] (push_all granted []))
