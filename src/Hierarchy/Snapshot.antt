-- ===== src/Hierarchy/Snapshot.antt =====
-- scope-hierarchy.ts: the validation of a policy at boot.
-- A row is a pair of texts and lists of texts: the refusals of other shapes are outside the model, and
-- so is the part of a message that names the row.
use mcp_sso.Common.{ℕ, ◌+◌, String, List, [], ◌∷◌, ◌++◌, not, ◌==◌, leb, length, includes}
use mcp_sso.Errors.{Result, ok, config, require, ◌>>=◌, ◌>>◌}
use mcp_sso.Dict.{get, has, put}
use mcp_sso.Hierarchy.{Graph}

pub record ScopeImplication : Type 0 where
  pub granted : String
  pub implies : List String

abbrev pub max_scope_hierarchy_rows : ℕ
max_scope_hierarchy_rows = 128

abbrev pub max_scope_hierarchy_edges : ℕ
max_scope_hierarchy_edges = 4096

-- The loop over a row's targets, with the edges counted so far.
unfoldable pub read_targets :
    (catalog : List String)
    → (granted : String) → (edges : List String) → (counted : ℕ) → List String
    → Result (List String × ℕ)
unfolding includes
read_targets catalog granted edges counted [] = ok (edges, counted)
read_targets catalog granted edges counted (t ∷ ts) =
    let rest = read_targets catalog granted (edges ++ t ∷ []) (counted + 1) ts in
    require (includes catalog t) (config "implies must be a member of scopeCatalog")
    >> (require (not (t == granted)) (config "scope cannot imply itself")
        >> (require (not (includes edges t)) (config "implies has duplicate scope")
            >> (require (leb (counted + 1) max_scope_hierarchy_edges)
                  (config "scopeHierarchy must contain at most 4096 direct edges")
                >> rest)))

-- The loop over the rows.
unfoldable pub read_rows :
    (catalog : List String) → Graph → (counted : ℕ) → List ScopeImplication → Result Graph
unfolding includes read_targets get put
read_rows catalog g counted [] = ok g
read_rows catalog g counted (row ∷ rows) =
    require (includes catalog row.granted) (config "granted must be a member of scopeCatalog")
    >> (require (not (has row.granted g)) (config "scopeHierarchy has duplicate granted scope")
        >> (require (leb (length row.implies) max_scope_hierarchy_rows)
              (config "implies must contain at most 128 entries")
            >> (require (leb 1 (length row.implies)) (config "implies must not be empty")
                >> (read_targets catalog row.granted [] counted row.implies >>= λ (edges, n).
                    read_rows catalog (put row.granted edges g) n rows))))
