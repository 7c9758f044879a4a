-- ===== src/Common/Lists.antt =====
-- Lists measured by native numbers, tests over lists, and predicates on every element.
use Prim.Native.Nat.{ℕ, suc, ◌+◌, ◌≤◌}
use Prim.Native.String.{String}
use mathlib.Core.Path.{◌≡◌, refl}
use mathlib.Core.Bool.{Bool, true, false, ◌&&◌, ◌||◌}
use mathlib.Core.List.{List, [], ◌∷◌, ◌++◌}
use native.Mathlib.Omega.{arith}
use text.Mathlib.Text.{◌==◌}
use text.Mathlib.TextEquality.{eq_iff}
use mcp_sso.Common.Tests.{if◌then◌else◌}

module _ {ℓ} {A : Type ℓ} where
  abbrev pub length : List A → ℕ
  length [] = 0
  length (x ∷ xs) = suc (length xs)

  pub length-append : (xs ys : List A) → length (xs ++ ys) ≡ length xs + length ys
  length-append [] ys = omega arith
  length-append (x ∷ xs) ys = omega (arith, length-append xs ys)

  unfoldable pub all : (A → Bool) → List A → Bool
  all p [] = true
  all p (x ∷ xs) = p x && all p xs

  unfoldable pub any : (A → Bool) → List A → Bool
  any p [] = false
  any p (x ∷ xs) = p x || any p xs

  -- `values.filter(p)`
  unfoldable pub keep_if : (A → Bool) → List A → List A
  keep_if p [] = []
  keep_if p (x ∷ xs) = let rest = keep_if p xs in if p x then x ∷ rest else rest

  pub length-keep_if-le : (p : A → Bool) (xs : List A) → length (keep_if p xs) ≤ length xs
  unfolding keep_if
  length-keep_if-le p [] = omega arith
  length-keep_if-le p (x ∷ xs) = ground (arith, length-keep_if-le p xs)

module _ {ℓ κ} {A : Type ℓ} (P : A → Type κ) where
  abbrev pub All : List A → Type κ
  All [] = Unit
  All (x ∷ xs) = P x × All xs

  pub All-append : (xs ys : List A) → All xs → All ys → All (xs ++ ys)
  All-append [] ys h k = k
  All-append (x ∷ xs) ys (p, h) k = (p, All-append xs ys h k)

  pub All-keep_if : (p : A → Bool) (xs : List A) → All xs → All (keep_if p xs)
  unfolding keep_if
  All-keep_if p [] h = tt
  All-keep_if p (x ∷ xs) h = ground (arith, All-keep_if p xs h.1)

-- `values.includes(text)` on a list of strings.
unfoldable pub includes : List String → String → Bool
includes [] s = false
includes (x ∷ xs) s = x == s || includes xs s

pub includes-append :
    (xs ys : List String) (s : String) → includes (xs ++ ys) s ≡ (includes xs s || includes ys s)
unfolding includes
includes-append [] ys s = refl
includes-append (x ∷ xs) ys s = ground (arith, includes-append xs ys s)

pub includes-keep_if :
    (p : String → Bool) (xs : List String) (s : String)
    → includes (keep_if p xs) s ≡ (includes xs s && p s)
unfolding includes keep_if
includes-keep_if p [] s = refl
includes-keep_if p (x ∷ xs) s = ground (arith, includes-keep_if p xs s, eq_iff x s)

-- Every element is a member of another list, by the program's own test.
abbrev pub Within : List String → List String → Type 0
Within ys = All (λ s. includes ys s ≡ true)

-- No text occurs twice.
abbrev pub Distinct : List String → Type 0
Distinct [] = Unit
Distinct (x ∷ xs) = (includes xs x ≡ false) × Distinct xs

pub Distinct-append :
    (out : List String) (s : String)
    → Distinct out
    → includes out s ≡ false
    → Distinct (out ++ s ∷ [])
unfolding includes
Distinct-append [] s d h = (refl, tt)
Distinct-append (x ∷ xs) s d h =
    ground (arith, Distinct-append xs s d.1, includes-append xs (s ∷ []) x, eq_iff s x, eq_iff x s)

pub Distinct-keep_if :
    (p : String → Bool) (xs : List String) → Distinct xs → Distinct (keep_if p xs)
unfolding keep_if
Distinct-keep_if p [] d = tt
Distinct-keep_if p (x ∷ xs) d = ground (arith, Distinct-keep_if p xs d.1, includes-keep_if p xs x)

pub keep_if-Within : (ceiling xs : List String) → Within ceiling (keep_if (includes ceiling) xs)
unfolding keep_if
keep_if-Within ceiling [] = tt
keep_if-Within ceiling (x ∷ xs) = ground (arith, keep_if-Within ceiling xs)
