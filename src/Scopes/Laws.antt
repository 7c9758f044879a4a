-- ===== src/Scopes/Laws.antt =====
-- scopes.ts: no call grants a scope outside the catalog, the ceiling or the request.
use mcp_sso.Common.{
  String, List, [], ◌∷◌, Option, Bool, true, not, ◌&&◌, ◌||◌, ◌==◌, ◌≡◌, inl, inr, arith, eq_iff,
  includes, includes-append, includes-keep_if, none, some, Distinct, Distinct-append, Within,
  All-append, if◌then◌else◌, Bool-cases, ◌⊎◌, any,
}
use mcp_sso.Errors.{ok, Result-cases}
use mcp_sso.Scopes.{
  ScopeInput, absent, push_new, normalize_items, normalize_once, normalize_scopes, scope_items,
  resolve_items, requested_list, resolve_client_credentials_scope, trim_text, split_spaces,
  stored_scopes, all_in, is_blank_text,
}

-- Each scope once, and all of them pass a test of lists.
abbrev pub IsGranted : List String → List String → Type 0
IsGranted catalog out = Distinct out × Within catalog out

pub push_new-IsGranted :
    (catalog out : List String) (v : String)
    → IsGranted catalog out
    → includes catalog v ≡ true
    → IsGranted catalog (push_new out v)
push_new-IsGranted catalog out v (d, w) h = elim (Bool-cases (includes out v)) [
  | inl old ↦ rw old (d, w)
  | inr new ↦ rw new (Distinct-append out v d new, All-append _ out (v ∷ []) w (h, tt))
]

pub includes-push_new :
    (out : List String) (v w : String) → includes (push_new out v) w ≡ (includes out w || v == w)
unfolding includes
includes-push_new out v w = ground (arith, includes-append out (v ∷ []) w, eq_iff v w)

abbrev pub pushed : List String → String → List String
pushed out item = if is_blank_text (trim_text item) then out else push_new out (trim_text item)

-- An item that names a scope.
abbrev pub names_scope : String → String → Bool
names_scope w item = not (is_blank_text (trim_text item)) && trim_text item == w

-- One turn of the loop of `normalizeScopes`.
normalize_turn :
    (catalog out : List String) (item : String) (items r : List String)
    → normalize_items catalog out (item ∷ items) ≡ ok r
    → ((is_blank_text (trim_text item) ≡ true) ⊎ (includes catalog (trim_text item) ≡ true))
      × (normalize_items catalog (pushed out item) items ≡ ok r)
unfolding normalize_items
normalize_turn catalog out item items r h = ground arith

pushed-IsGranted :
    (catalog out : List String) (item : String)
    → (is_blank_text (trim_text item) ≡ true) ⊎ (includes catalog (trim_text item) ≡ true)
    → IsGranted catalog out
    → IsGranted catalog (pushed out item)
pushed-IsGranted catalog out item h g = elim (Bool-cases (is_blank_text (trim_text item))) [
  | inl blank ↦ rw blank g
  | inr word ↦ rw word (push_new-IsGranted catalog out (trim_text item) g (ground arith))
]

normalize_items-IsGranted :
    (catalog out items r : List String)
    → IsGranted catalog out
    → normalize_items catalog out items ≡ ok r
    → IsGranted catalog r
unfolding normalize_items
normalize_items-IsGranted catalog out [] r g h = ground arith
normalize_items-IsGranted catalog out (item ∷ items) r g h =
    let (good, next) = normalize_turn catalog out item items r h in
    normalize_items-IsGranted catalog (pushed out item) items r
      (pushed-IsGranted catalog out item good g) next

-- A list of items that is accepted gives exactly the scopes that its items name, beside the earlier.
pub includes-normalize_items :
    (catalog out items r : List String) (w : String)
    → normalize_items catalog out items ≡ ok r
    → includes r w ≡ (includes out w || any (names_scope w) items)
unfolding normalize_items any
includes-normalize_items catalog out [] r w h = ground arith
includes-normalize_items catalog out (item ∷ items) r w h =
    let (good, next) = normalize_turn catalog out item items r h in
    ground (
      arith,
      includes-normalize_items catalog (pushed out item) items r w next,
      includes-push_new out (trim_text item) w,
    )

normalize_once-IsGranted :
    (scope : ScopeInput) (catalog defaults r : List String)
    → normalize_once scope catalog defaults ≡ ok r
    → IsGranted catalog r
unfolding normalize_once
normalize_once-IsGranted scope catalog defaults r h =
    elim (Result-cases (scope_items scope defaults)) [
      | inl (items, e) ↦ normalize_items-IsGranted catalog [] items r (tt, tt) (ground (arith, e))
      | inr (x, e) ↦ ground (arith, e)
    ]

normalize_cases :
    (scope : ScopeInput) (catalog defaults r : List String)
    → normalize_scopes scope catalog defaults ≡ ok r
    → (normalize_once scope catalog defaults ≡ ok r)
      ⊎ (normalize_once absent catalog defaults ≡ ok r)
unfolding normalize_scopes
normalize_cases scope catalog defaults r h = ground arith

-- Whatever scope a request names, and through the fall back to the defaults too, what
-- `normalizeScopes` returns holds each scope once and only scopes of the catalog.
pub normalize_scopes-IsGranted :
    (scope : ScopeInput) (catalog defaults r : List String)
    → normalize_scopes scope catalog defaults ≡ ok r
    → IsGranted catalog r
normalize_scopes-IsGranted scope catalog defaults r h =
    elim (normalize_cases scope catalog defaults r h) [
      | inl own ↦ normalize_once-IsGranted scope catalog defaults r own
      | inr fallback ↦ normalize_once-IsGranted absent catalog defaults r fallback
    ]

-- One turn of the loop of `resolveClientCredentialsScope`.
resolve_turn :
    (ceiling catalog out : List String) (t : String) (ts r : List String)
    → resolve_items ceiling catalog out (t ∷ ts) ≡ ok r
    → (includes ceiling t ≡ true)
      × (includes catalog t ≡ true)
      × (resolve_items ceiling catalog (push_new out t) ts ≡ ok r)
unfolding resolve_items
resolve_turn ceiling catalog out t ts r h = ground arith

resolve_items-IsGranted :
    (ceiling catalog out ts r : List String)
    → IsGranted ceiling out
    → IsGranted catalog out
    → resolve_items ceiling catalog out ts ≡ ok r
    → IsGranted ceiling r × IsGranted catalog r
unfolding resolve_items
resolve_items-IsGranted ceiling catalog out [] r g k h = ground arith
resolve_items-IsGranted ceiling catalog out (t ∷ ts) r g k h =
    let (a, b, next) = resolve_turn ceiling catalog out t ts r h in
    resolve_items-IsGranted ceiling catalog (push_new out t) ts r
      (push_new-IsGranted ceiling out t g a) (push_new-IsGranted catalog out t k b) next

includes-resolve_items :
    (ceiling catalog out ts r : List String) (w : String)
    → resolve_items ceiling catalog out ts ≡ ok r
    → includes r w ≡ (includes out w || includes ts w)
unfolding resolve_items includes
includes-resolve_items ceiling catalog out [] r w h = ground arith
includes-resolve_items ceiling catalog out (t ∷ ts) r w h =
    let (a, b, next) = resolve_turn ceiling catalog out t ts r h in
    ground (
      arith,
      includes-resolve_items ceiling catalog (push_new out t) ts r w next,
      includes-push_new out t w,
    )

resolve_checked :
    (requested : Option String) (ceiling catalog r : List String)
    → resolve_client_credentials_scope requested ceiling catalog ≡ ok r
    → (items : List String) × (requested_list requested ceiling ≡ ok items)
      × (resolve_items ceiling catalog [] items ≡ ok r)
unfolding resolve_client_credentials_scope
resolve_checked requested ceiling catalog r h =
    elim (Result-cases (requested_list requested ceiling)) [
      | inl (items, e) ↦ (items, e, ground (arith, e))
      | inr (x, e) ↦ ground (arith, e)
    ]

-- Whether a request asks for a scope: its words, or the whole ceiling where it has none.
abbrev pub asks : Option String → List String → String → Bool
asks none ceiling w = includes ceiling w
asks (some value) ceiling w =
    if is_blank_text (trim_text value)
    then includes ceiling w
    else includes (split_spaces value) w && not (is_blank_text w)

requested_list-asks :
    (requested : Option String) (ceiling items : List String) (w : String)
    → requested_list requested ceiling ≡ ok items
    → includes items w ≡ asks requested ceiling w
unfolding requested_list
requested_list-asks none ceiling items w h = ground arith
requested_list-asks (some value) ceiling items w h =
    ground (arith, includes-keep_if (λ s. not (is_blank_text s)) (split_spaces value) w)

-- The scopes that a machine client gets are exactly the words of its request, or all of its ceiling
-- where it names none; each stands once, and is in the ceiling and in the catalog.
pub machine_scopes_sound :
    (requested : Option String) (ceiling catalog r : List String)
    → resolve_client_credentials_scope requested ceiling catalog ≡ ok r
    → Distinct r
      × Within ceiling r
      × Within catalog r
      × ((w : String) → includes r w ≡ asks requested ceiling w)
unfolding includes
machine_scopes_sound requested ceiling catalog r h =
    let (items, e, done) = resolve_checked requested ceiling catalog r h in
    let (a, b) = resolve_items-IsGranted ceiling catalog [] items r (tt, tt) (tt, tt) done in
    (
      a.0,
      a.1,
      b.1,
      λ w. ground (
        arith,
        includes-resolve_items ceiling catalog [] items r w done,
        requested_list-asks requested ceiling items w e,
      ),
    )

stored_all_in : (catalog value : List String) → all_in catalog value ≡ true → Within catalog value
unfolding all_in
stored_all_in catalog [] h = tt
stored_all_in catalog (s ∷ ss) h = (ground arith, stored_all_in catalog ss (ground arith))

-- Stored scopes come back unchanged, and only when each of them is in the catalog still.
pub stored_scopes_sound :
    (value catalog r : List String)
    → stored_scopes value catalog ≡ ok r
    → (r ≡ value) × Within catalog r
unfolding stored_scopes
stored_scopes_sound value catalog r h =
    let same : r ≡ value = ground arith in
    (same, rw same (stored_all_in catalog value (ground arith)))
