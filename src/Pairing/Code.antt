-- ===== src/Pairing/Code.antt =====
-- identity/console-pairing.ts: the alphabet of a pairing code, its drawing, its print and its reading.
-- `toUpperCase` is a parameter.
use mcp_sso.Common.{
  ℕ, zero, suc, ◌%◌, String, List, [], ◌∷◌, Bool, leb, nat_eq, any, codes, if◌then◌else◌,
}
use Prim.Native.Char.{Char, code}

abbrev pub charset : String
charset = "BCDFGHJKLMNPQRSTVWXZ"

abbrev pub code_length : ℕ
code_length = 12

abbrev pub reject_threshold : ℕ
reject_threshold = 240

-- `CHARSET.includes(ch)`
unfoldable pub in_charset : Char → Bool
unfolding any
in_charset c = any (nat_eq (code c)) (codes charset)

unfoldable pub keep_charset : String → String
unfolding in_charset
keep_charset String.[] = String.[]
keep_charset (String.◌∷◌ c s) =
    let rest = keep_charset s in if in_charset c then String.◌∷◌ c rest else rest

unfoldable pub canonicalize_pairing_code : (upper : String → String) → String → String
unfolding keep_charset
canonicalize_pairing_code upper input = keep_charset (upper input)

-- `CHARSET[i]`
abbrev pub char_at : String → ℕ → Char → Char
char_at String.[] i d = d
char_at (String.◌∷◌ c s) zero d = c
char_at (String.◌∷◌ c s) (suc i) d = char_at s i d

abbrev pub first_char : Char
first_char = "B"

-- The loop of `generatePairingCode` over the bytes that are drawn: a byte from the threshold on is
-- passed over, and drawing stops at the length. The bytes of all draws stand in one list.
unfoldable pub draw : ℕ → List ℕ → String
draw zero bytes = String.[]
draw (suc n) [] = String.[]
draw (suc n) (b ∷ bytes) =
    let kept = draw n bytes in
    let skipped = draw (suc n) bytes in
    if leb reject_threshold b
    then skipped
    else String.◌∷◌ (char_at charset (b % 20) first_char) kept

unfoldable pub generate_pairing_code : List ℕ → String
unfolding draw
generate_pairing_code bytes = draw code_length bytes

unfoldable pub take_text : ℕ → String → String
take_text zero s = String.[]
take_text (suc n) String.[] = String.[]
take_text (suc n) (String.◌∷◌ c s) = String.◌∷◌ c (take_text n s)

unfoldable pub drop_text : ℕ → String → String
drop_text zero s = s
drop_text (suc n) String.[] = String.[]
drop_text (suc n) (String.◌∷◌ c s) = drop_text n s

-- Concatenation of texts.
infixr 65 ◌+++◌
unfoldable pub ◌+++◌ : String → String → String
String.[] +++ t = t
(String.◌∷◌ c s) +++ t = String.◌∷◌ c (s +++ t)

-- `XXXX-XXXX-XXXX`
unfoldable pub format_pairing_code : String → String
unfolding take_text drop_text ◌+++◌
format_pairing_code code =
    take_text 4 code
    +++ "-"
    +++ take_text 4 (drop_text 4 code)
    +++ "-"
    +++ take_text 4 (drop_text 8 code)
