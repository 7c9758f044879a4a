-- ===== src/Store/Memory/Granted.antt =====
-- store/memory.ts: which scopes `findGrantedScopes` returns.
use mcp_sso.Common.{
  ℕ, String, List, [], ◌∷◌, ◌++◌, Option, none, some, Bool, true, false, text_lt, Option-cases, inl,
  inr, ◌↔◌, ◌&&◌, ◌||◌, ◌==◌, ◌≡◌, arith, refl, is_none, eq_iff, if◌then◌else◌, includes,
  includes-append, any, Distinct, Distinct-append,
}
use mcp_sso.Errors.{ok}
use mcp_sso.Dict.{Dict, get, values}
use mcp_sso.Dict.Laws.{any-values, values-any}
use mcp_sso.Store.Memory.State.{MemoryStore, StoredRefresh, StoredFamily, truthy}
use mcp_sso.Store.Memory.Expected.{IsOf, IsOf-iff, IsFor, IsFor-iff}
use mcp_sso.Store.Memory.Valid.{IsValid}
use mcp_sso.Store.Memory.Expiry.{merge_scopes, collect_scopes, is_active, find_granted_scopes}

includes-push :
    (out : List String) (s w : String)
    → includes (if includes out s then out else out ++ s ∷ []) w ≡ (includes out w || s == w)
unfolding includes
includes-push out s w = ground (arith, includes-append out (s ∷ []) w, eq_iff s w)

includes-merge :
    (out ss : List String) (w : String)
    → includes (merge_scopes out ss) w ≡ (includes out w || includes ss w)
unfolding merge_scopes includes
includes-merge out [] w = ground arith
includes-merge out (s ∷ ss) w = ground (
  arith,
  includes-merge (if includes out s then out else out ++ s ∷ []) ss w,
  includes-push out s w,
)

includes-collect :
    (active : StoredRefresh → Bool) (out : List String) (ts : List StoredRefresh) (w : String)
    → includes (collect_scopes active out ts) w
      ≡ (includes out w || any (λ t. active t && includes t.scopes w) ts)
unfolding collect_scopes any
includes-collect active out [] w = ground arith
includes-collect active out (t ∷ ts) w = ground (
  arith,
  includes-collect active (if active t then merge_scopes out t.scopes else out) ts w,
  includes-merge out t.scopes w,
)

Distinct-merge : (out ss : List String) → Distinct out → Distinct (merge_scopes out ss)
unfolding merge_scopes
Distinct-merge out [] d = d
Distinct-merge out (s ∷ ss) d =
    Distinct-merge (if includes out s then out else out ++ s ∷ []) ss
      (ground (arith, Distinct-append out s d))

Distinct-collect :
    (active : StoredRefresh → Bool) (out : List String) (ts : List StoredRefresh)
    → Distinct out
    → Distinct (collect_scopes active out ts)
unfolding collect_scopes
Distinct-collect active out [] d = d
Distinct-collect active out (t ∷ ts) d =
    Distinct-collect active (if active t then merge_scopes out t.scopes else out) ts
      (ground (arith, Distinct-merge out t.scopes d))

is_none-eq : (o : Option String) → is_none o ≡ true → o ≡ none
is_none-eq none h = refl
is_none-eq (some x) h = cc

-- A token whose scopes count: of the subject and the client, unused, in date, of a family that is there
-- and not revoked, and of the expected generation and resource.
pub record IsGrant (subject client_id now : String) (g : Option ℕ) (r : Option String)
    (families : Dict StoredFamily) (t : StoredRefresh) : Type 0 where
  pub of_subject : t.subject ≡ subject
  pub of_client : t.client_id ≡ client_id
  pub unused : truthy t.consumed_at ≡ false
  pub in_date : text_lt now t.expires_at ≡ true
  pub generation : IsOf g t.grant_generation
  pub resource : IsFor r t.resource
  pub family : StoredFamily
  pub found : get t.family_id families ≡ some family
  pub unrevoked : family.revoked_at ≡ none
  pub family_resource : IsFor r family.resource

module _ (subject client_id now : String) (g : Option ℕ) (r : Option String)
    (families : Dict StoredFamily) (t : StoredRefresh) where
  active-IsGrant :
      is_active subject client_id now g r families t ≡ true
      → IsGrant subject client_id now g r families t
  unfolding is_active
  active-IsGrant h = elim (Option-cases (get t.family_id families)) [
    | inl e ↦ ground (arith, e)
    | inr (f, e) ↦ record {
      of_subject = ground (arith, eq_iff t.subject subject);
      of_client = ground (arith, eq_iff t.client_id client_id);
      unused = ground arith;
      in_date = ground arith;
      generation = (IsOf-iff g t.grant_generation).0 (ground (arith, e));
      resource = (IsFor-iff r t.resource).0 (ground (arith, e));
      family = f;
      found = e;
      unrevoked = is_none-eq f.revoked_at (ground (arith, e));
      family_resource = (IsFor-iff r f.resource).0 (ground (arith, e));
    }
  ]

  grant-active :
      IsGrant subject client_id now g r families t
      → is_active subject client_id now g r families t ≡ true
  unfolding is_active
  grant-active v = ground (
    arith,
    eq_iff t.subject subject,
    eq_iff t.client_id client_id,
    v.of_subject,
    v.of_client,
    v.unused,
    v.in_date,
    v.found,
    v.unrevoked,
    (IsOf-iff g t.grant_generation).1 v.generation,
    (IsFor-iff r t.resource).1 v.resource,
    (IsFor-iff r v.family.resource).1 v.family_resource,
  )

-- The scopes that the call returns, each once, are exactly those of the stored tokens of the subject and
-- the client that are unused, in date, of a family that is not revoked, and bound as the caller
-- expects.
pub find_granted_scopes_exact :
    (subject client_id now : String) (g : Option ℕ) (r : Option String) (s : MemoryStore)
    (out : List String)
    → IsValid s
    → (find_granted_scopes subject client_id now g r s).0 ≡ ok out
    → Distinct out
      × ((w : String)
          → (includes out w ≡ true) ↔ (
              (hash : String) × (t : StoredRefresh) × (get hash s.refresh_tokens ≡ some t)
              × IsGrant subject client_id now g r s.families t
              × (includes t.scopes w ≡ true)))
unfolding find_granted_scopes includes
find_granted_scopes_exact subject client_id now g r s out v h =
    let active = is_active subject client_id now g r s.families in
    let e : collect_scopes active [] (values s.refresh_tokens) ≡ out = ground arith in
    let exact : (w : String)
        → includes out w ≡ any (λ t. active t && includes t.scopes w) (values s.refresh_tokens) =
      λ w. rw (← e) (includes-collect active [] (values s.refresh_tokens) w) in
    (
      rw (← e) (Distinct-collect active [] (values s.refresh_tokens) tt),
      λ w. (
        (λ inside.
            let (hash, t, row, passed) =
              any-values (λ t. active t && includes t.scopes w) s.refresh_tokens v.tokens_map
                (cc (exact w, inside)) in
            (
              hash,
              t,
              row,
              active-IsGrant subject client_id now g r s.families t (ground (arith, passed)),
              ground (arith, passed),
            )),
        (λ (hash, t, row, grant, inside).
            let active_row = grant-active subject client_id now g r s.families t grant in
            let passed : (active t && includes t.scopes w) ≡ true =
              ground (arith, active_row, inside) in
            let hit =
              values-any (λ t. active t && includes t.scopes w) s.refresh_tokens hash t row
                passed in
            cc (exact w, hit)),
      ),
    )
