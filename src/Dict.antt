-- ===== src/Dict.antt =====
-- JavaScript's `Map` with string keys: entries in the order of insertion, each key once.
pub mod Laws
use mcp_sso.Common.{
  String, List, [], ◌∷◌, Option, none, some, Bool, true, false, ◌==◌, ◌≡◌, if◌then◌else◌, is_some,
  ℕ,
}

abbrev pub Dict {ℓ} : Type ℓ → Type ℓ
Dict V = List (String × V)

module _ {ℓ} {V : Type ℓ} where
  -- `map.get(k)`
  unfoldable pub get : String → Dict V → Option V
  get k [] = none
  get k ((j, v) ∷ d) = if j == k then some v else get k d

  -- `map.has(k)`
  abbrev pub has : String → Dict V → Bool
  has k d = is_some (get k d)

  -- `map.set(k, v)`: a present key keeps its place, a new one goes to the end.
  unfoldable pub put : String → V → Dict V → Dict V
  put k v [] = (k, v) ∷ []
  put k v ((j, w) ∷ d) = if j == k then (j, v) ∷ d else (j, w) ∷ put k v d

  -- `map.delete(k)`
  unfoldable pub remove : String → Dict V → Dict V
  remove k [] = []
  remove k ((j, v) ∷ d) = let rest = remove k d in if j == k then rest else (j, v) ∷ rest

  -- The loop that deletes each entry whose value fails a test.
  unfoldable pub retain : (V → Bool) → Dict V → Dict V
  retain p [] = []
  retain p ((j, v) ∷ d) = let rest = retain p d in if p v then (j, v) ∷ rest else rest

  -- `[...map.values()]`
  unfoldable pub values : Dict V → List V
  values [] = []
  values ((j, v) ∷ d) = v ∷ values d

  -- Each key once.
  abbrev pub IsMap : Dict V → Type ℓ
  IsMap [] = Unit
  IsMap ((j, v) ∷ d) = (get j d ≡ none) × IsMap d
