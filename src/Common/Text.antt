-- ===== src/Common/Text.antt =====
-- Text as the program reads it: code points, classes of characters, and the order of strings.
use Prim.Native.Nat.{ℕ, ◌+◌}
use Prim.Native.Char.{code}
use Prim.Native.String.{String}
use mathlib.Core.Path.{◌≡◌, refl, ap₂}
use mathlib.Core.Bool.{Bool, true, false, ◌&&◌, ◌||◌}
use mathlib.Core.List.{List, [], ◌∷◌, reverse}
use native.Mathlib.Omega.{arith}
use text.Mathlib.TextEquality.{Char-path}
use mcp_sso.Common.Tests.{ltb, leb, nat_eq, if◌then◌else◌}

-- The code points of a text. Lone surrogates, which JavaScript strings may hold, are not texts.
abbrev pub codes : String → List ℕ
codes String.[] = []
codes (String.◌∷◌ c s) = code c ∷ codes s

pub codes_inj : (s t : String) → codes s ≡ codes t → s ≡ t
codes_inj String.[] String.[] h = refl
codes_inj String.[] (String.◌∷◌ c t) h = cc
codes_inj (String.◌∷◌ c s) String.[] h = cc
codes_inj (String.◌∷◌ c s) (String.◌∷◌ d t) h =
    ap₂ String.◌∷◌ (Char-path c d (cc)) (codes_inj s t (cc))

-- `a < b` on strings: the first difference decides, and a prefix is smaller.
unfoldable pub lex_lt : List ℕ → List ℕ → Bool
lex_lt xs [] = false
lex_lt [] (y ∷ ys) = true
lex_lt (x ∷ xs) (y ∷ ys) =
    let rest = lex_lt xs ys in if ltb x y then true else if ltb y x then false else rest

pub lex_lt_irrefl : (xs : List ℕ) → lex_lt xs xs ≡ false
unfolding lex_lt
lex_lt_irrefl [] = refl
lex_lt_irrefl (x ∷ xs) = ground (arith, lex_lt_irrefl xs)

pub lex_lt_trans :
    (xs ys zs : List ℕ) → lex_lt xs ys ≡ true → lex_lt ys zs ≡ true → lex_lt xs zs ≡ true
unfolding lex_lt
lex_lt_trans xs ys [] h k = cc
lex_lt_trans xs [] (z ∷ zs) h k = cc
lex_lt_trans [] (y ∷ ys) (z ∷ zs) h k = refl
lex_lt_trans (x ∷ xs) (y ∷ ys) (z ∷ zs) h k = ground (arith, lex_lt_trans xs ys zs)

pub lex_lt_total : (xs ys : List ℕ) → lex_lt xs ys ≡ false → lex_lt ys xs ≡ false → xs ≡ ys
unfolding lex_lt
lex_lt_total [] [] h k = refl
lex_lt_total [] (y ∷ ys) h k = cc
lex_lt_total (x ∷ xs) [] h k = cc
lex_lt_total (x ∷ xs) (y ∷ ys) h k = ground (arith, lex_lt_total xs ys)

-- The comparison of two strings, as the stores compare timestamps.
unfoldable pub text_lt : String → String → Bool
text_lt s t = lex_lt (codes s) (codes t)

pub text_lt_irrefl : (s : String) → text_lt s s ≡ false
unfolding text_lt
text_lt_irrefl s = lex_lt_irrefl (codes s)

pub text_lt_trans : (s t u : String) → text_lt s t ≡ true → text_lt t u ≡ true → text_lt s u ≡ true
unfolding text_lt
text_lt_trans s t u = lex_lt_trans (codes s) (codes t) (codes u)

pub text_lt_total : (s t : String) → text_lt s t ≡ false → text_lt t s ≡ false → s ≡ t
unfolding text_lt
text_lt_total s t h k = codes_inj s t (lex_lt_total (codes s) (codes t) h k)

-- Classes of characters.
abbrev pub between : ℕ → ℕ → ℕ → Bool
between lo hi c = leb lo c && leb c hi

abbrev pub is_digit : ℕ → Bool
is_digit = between b'0' b'9'

abbrev pub is_hex : ℕ → Bool
is_hex c = is_digit c || between b'a' b'f' c || between b'A' b'F' c

-- `[A-Za-z0-9_-]`
abbrev pub is_base64url : ℕ → Bool
is_base64url c =
    between b'A' b'Z' c || between b'a' b'z' c || is_digit c || nat_eq c b'_' || nat_eq c b'-'

-- The white space that `String.prototype.trim` and `\s` know.
abbrev pub is_space : ℕ → Bool
is_space c =
    between 9 13 c
    || nat_eq c 32
    || nat_eq c 160
    || nat_eq c 0x1680
    || between 0x2000 0x200a c
    || between 0x2028 0x2029 c
    || nat_eq c 0x202f
    || nat_eq c 0x205f
    || nat_eq c 0x3000
    || nat_eq c 0xfeff

unfoldable pub drop_spaces : List ℕ → List ℕ
drop_spaces [] = []
drop_spaces (c ∷ cs) = let rest = drop_spaces cs in if is_space c then rest else c ∷ cs

-- `value.trim()`
unfoldable pub trim : List ℕ → List ℕ
unfolding drop_spaces
trim cs = reverse (drop_spaces (reverse (drop_spaces cs)))

-- Equality of code point sequences.
unfoldable pub same_codes : List ℕ → List ℕ → Bool
same_codes [] [] = true
same_codes (x ∷ xs) (y ∷ ys) = nat_eq x y && same_codes xs ys
same_codes _ _ = false

pub same_codes_sound : (xs ys : List ℕ) → same_codes xs ys ≡ true → xs ≡ ys
unfolding same_codes
same_codes_sound [] [] h = refl
same_codes_sound (x ∷ xs) (y ∷ ys) h = ground (arith, same_codes_sound xs ys)
same_codes_sound [] (y ∷ ys) h = cc
same_codes_sound (x ∷ xs) [] h = cc

-- `value.startsWith(prefix)` on code points.
unfoldable pub has_prefix : List ℕ → List ℕ → Bool
has_prefix cs [] = true
has_prefix [] (p ∷ ps) = false
has_prefix (c ∷ cs) (p ∷ ps) = nat_eq c p && has_prefix cs ps

-- `Buffer.byteLength(value, "utf8")`
unfoldable pub utf8_length : List ℕ → ℕ
utf8_length [] = 0
utf8_length (c ∷ cs) =
    (if ltb c 0x80 then 1 else if ltb c 0x800 then 2 else if ltb c 0x1_0000 then 3 else 4)
    + utf8_length cs
