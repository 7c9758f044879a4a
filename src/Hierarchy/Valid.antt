-- ===== src/Hierarchy/Valid.antt =====
-- scope-hierarchy.ts: the graphs that the validation of a policy builds at boot.
use mcp_sso.Common.{
  ℕ, ◌+◌, ◌≤◌, String, List, [], ◌∷◌, ◌++◌, none, true, false, not, ◌==◌, ◌≡◌, refl, arith, leb,
  length, length-append, includes, includes-append, Within, Distinct, Distinct-append, All,
  All-append,
}
use mcp_sso.Errors.{ok, require-passed, bind-passed}
use mcp_sso.Dict.{get, has, put, IsMap}
use mcp_sso.Dict.Laws.{put-fresh, put-IsMap}
use mcp_sso.Hierarchy.{Graph, count_edges}
use mcp_sso.Hierarchy.Snapshot.{ScopeImplication, read_targets, read_rows}

module _ (catalog : List String) where
  -- The targets of a row: in the catalog, each once, and not the row's own scope.
  pub record AreTargets (granted : String) (ts : List String) : Type 0 where
    pub known : Within catalog ts
    pub once : Distinct ts
    pub other : includes ts granted ≡ false

  targets-AreTargets :
      (granted : String) (edges : List String) (n : ℕ) (ts out : List String) (m : ℕ)
      → AreTargets granted edges
      → n ≤ 4096
      → read_targets catalog granted edges n ts ≡ ok (out, m)
      → AreTargets granted out × (m ≤ 4096) × (length out + n ≡ length edges + m)
  unfolding read_targets
  targets-AreTargets granted edges n [] out m v few h =
      let same : edges ≡ out = ground arith in
      let counted : n ≡ m = ground arith in
      (rw (← same) v, omega (arith, counted, few), rw (← same, ← counted) refl)
  targets-AreTargets granted edges n (t ∷ ts) out m v few h =
      let (a, h0) = require-passed (includes catalog t) _ _ (out, m) h in
      let (b, h1) = require-passed (not (t == granted)) _ _ (out, m) h0 in
      let (c, h2) = require-passed (not (includes edges t)) _ _ (out, m) h1 in
      let (d, h3) = require-passed (leb (n + 1) 4096) _ _ (out, m) h2 in
      let (w, less, counted) =
        targets-AreTargets granted (edges ++ t ∷ []) (n + 1) ts out m
          (record {
            known = All-append _ edges (t ∷ []) v.known (a, tt);
            once = Distinct-append edges t v.once (ground (arith, c));
            other =
                unfold includes in
                ground (arith, b, v.other, includes-append edges (t ∷ []) granted);
          })
          (ground (arith, d)) h3 in
      (w, less, omega (arith, counted, length-append edges (t ∷ [])))

  abbrev pub IsRow : String × List String → Type 0
  IsRow (granted, ts) = (includes catalog granted ≡ true) × AreTargets granted ts

  -- Each scope of the catalog at most once, with good targets, and few edges in all.
  pub record IsPolicy (g : Graph) : Type 0 where
    pub scopes_once : IsMap g
    pub rows : All IsRow g
    pub few_edges : count_edges g ≤ 4096

edges-append :
    (g : Graph) (k : String) (ts : List String)
    → count_edges (g ++ (k, ts) ∷ []) ≡ length ts + count_edges g
unfolding count_edges
edges-append [] k ts = refl
edges-append ((j, us) ∷ g) k ts = omega (arith, edges-append g k ts)

module _ (catalog : List String) where
  row_added :
      (g : Graph) (k : String) (ts : List String)
      → IsPolicy catalog g
      → get k g ≡ none
      → IsRow catalog (k, ts)
      → length ts + count_edges g ≤ 4096
      → IsPolicy catalog (put k ts g)
  row_added g k ts v new row few = record {
    scopes_once = put-IsMap k ts g v.scopes_once;
    rows = rw (put-fresh k ts g new) (All-append _ g ((k, ts) ∷ []) v.rows (row, tt));
    few_edges = rw (put-fresh k ts g new, edges-append g k ts) few;
  }

  rows-IsPolicy :
      (g out : Graph) (rows : List ScopeImplication)
      → IsPolicy catalog g
      → read_rows catalog g (count_edges g) rows ≡ ok out
      → IsPolicy catalog out
  unfolding read_rows
  rows-IsPolicy g out [] v h = let same : g ≡ out = ground arith in rw (← same) v
  rows-IsPolicy g out (row ∷ rows) v h =
      let (a, h0) = require-passed (includes catalog row.granted) _ _ out h in
      let (b, h1) = require-passed (not (has row.granted g)) _ _ out h0 in
      let (c, h2) = require-passed (leb (length row.implies) 128) _ _ out h1 in
      let (d, h3) = require-passed (leb 1 (length row.implies)) _ _ out h2 in
      let ((edges, n), read, h4) =
        bind-passed (read_targets catalog row.granted [] (count_edges g) row.implies) _ out h3 in
      let (ts, few, counted) =
        targets-AreTargets catalog row.granted [] (count_edges g) row.implies edges n
          (record { known = tt; once = tt; other = unfold includes in refl }) v.few_edges read in
      let new : get row.granted g ≡ none = ground (arith, b) in
      let full : length edges + count_edges g ≡ n = omega (arith, counted) in
      let total : count_edges (put row.granted edges g) ≡ n =
        rw (put-fresh row.granted edges g new, edges-append g row.granted edges) full in
      rows-IsPolicy (put row.granted edges g) out rows
        (row_added g row.granted edges v new (a, ts) (rw full few)) (rw total h4)

  -- The rows that the validation accepts make a graph whose keys are scopes of the catalog, each
  -- once; the targets of a key are scopes of the catalog, distinct, and not the key itself; and
  -- there are at most 4096 edges.
  pub read_rows-IsPolicy :
      (rows : List ScopeImplication) (g : Graph)
      → read_rows catalog [] 0 rows ≡ ok g
      → IsPolicy catalog g
  read_rows-IsPolicy rows g h =
      rows-IsPolicy [] g rows
        (unfold count_edges in record { scopes_once = tt; rows = tt; few_edges = ground arith })
        (unfold count_edges in h)
