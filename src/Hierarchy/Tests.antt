-- ===== src/Hierarchy/Tests.antt =====
-- Scopes with a chain of implications and a cycle.
use mcp_sso.Common.{
  List, String, Bool, suc, length, ◌+◌, [], ◌∷◌, none, some, true, false, ◌≡◌, refl, ◌↔◌, includes,
}
use mcp_sso.Dict.{get, put}
use mcp_sso.Hierarchy.{Graph, hierarchy_implies, search, push_all, count_edges}
use mcp_sso.Hierarchy.Reach.{search_from_granted_ends}
use mcp_sso.Errors.{err, config}
use mcp_sso.Hierarchy.Snapshot.{ScopeImplication, read_targets, read_rows}
use mcp_sso.Hierarchy.Valid.{IsPolicy, read_rows-IsPolicy}
use mcp_sso.Hierarchy.Laws.{Grants, hierarchy_implies_iff}

abbrev graph : Graph
graph = ("admin", "write" ∷ []) ∷ ("write", "read" ∷ "admin" ∷ []) ∷ []

chain : hierarchy_implies (some graph) ("admin" ∷ []) "read" ≡ true
unfolding hierarchy_implies search push_all count_edges get includes
chain = refl

no_way_up : hierarchy_implies (some graph) ("read" ∷ []) "admin" ≡ false
unfolding hierarchy_implies search push_all count_edges get includes
no_way_up = refl

hierarchy_implies_iff_example :
    ((hierarchy_implies (some graph) ("admin" ∷ []) "read" ≡ true)
      ↔ Grants graph ("admin" ∷ []) "read")
    × (hierarchy_implies none ("admin" ∷ []) "read" ≡ false)
hierarchy_implies_iff_example = hierarchy_implies_iff graph ("admin" ∷ []) "read"

abbrev granted : List String
granted = "admin" ∷ []

search_from_granted_ends_example :
    (b : Bool) × (search
        (suc (length granted + count_edges graph))
        graph
        "read"
        []
        (push_all granted [])
      ≡ some b)
search_from_granted_ends_example = search_from_granted_ends graph granted "read"

abbrev catalog : List String
catalog = "admin" ∷ "write" ∷ "read" ∷ []

abbrev rows : List ScopeImplication
rows =
    record { granted = "admin"; implies = "write" ∷ [] }
    ∷ record { granted = "write"; implies = "read" ∷ "admin" ∷ [] }
    ∷ []

own_target :
    read_rows catalog [] 0 (record { granted = "read"; implies = "write" ∷ "read" ∷ [] } ∷ [])
    ≡ err (config "scope cannot imply itself")
unfolding read_rows read_targets get includes
own_target = refl

read_rows-IsPolicy_example : IsPolicy catalog graph
unfolding read_rows read_targets get put includes
read_rows-IsPolicy_example = read_rows-IsPolicy catalog rows graph refl
