-- ===== src/Pairing/Print.antt =====
-- identity/console-pairing.ts: a printed code is read back as itself.
use mcp_sso.Common.{
  ℕ, zero, suc, ◌+◌, ◌≤◌, String, true, ◌≡◌, refl, ap, arith, leb, inl, inr, Bool-cases, ◌%◌, List,
  [], ◌∷◌, length, codes, any,
}
use Prim.Native.Char.{Char}
use native.Mathlib.Nat.{zero-add, suc-add}
use mcp_sso.Pairing.Code.{
  in_charset, keep_charset, canonicalize_pairing_code, take_text, drop_text, format_pairing_code,
  ◌+++◌, draw, generate_pairing_code, code_length, charset, char_at, first_char, reject_threshold,
}

-- Every character is of the alphabet.
abbrev pub IsCode : String → Type 0
IsCode String.[] = Unit
IsCode (String.◌∷◌ c s) = (in_charset c ≡ true) × IsCode s

keep-append : (s t : String) → keep_charset (s +++ t) ≡ keep_charset s +++ keep_charset t
unfolding keep_charset ◌+++◌
keep-append String.[] t = refl
keep-append (String.◌∷◌ c s) t = ground (arith, keep-append s t)

keep-IsCode : (s : String) → IsCode s → keep_charset s ≡ s
unfolding keep_charset
keep-IsCode String.[] h = refl
keep-IsCode (String.◌∷◌ c s) h = ground (arith, keep-IsCode s h.1)

take-drop : (n : ℕ) (s : String) → take_text n s +++ drop_text n s ≡ s
unfolding take_text drop_text ◌+++◌
take-drop zero s = refl
take-drop (suc n) String.[] = refl
take-drop (suc n) (String.◌∷◌ c s) = ap (String.◌∷◌ c) (take-drop n s)

drop-nil : (n : ℕ) → drop_text n String.[] ≡ String.[]
unfolding drop_text
drop-nil zero = refl
drop-nil (suc n) = refl

drop-drop : (m n : ℕ) (s : String) → drop_text n (drop_text m s) ≡ drop_text (m + n) s
unfolding drop_text
drop-drop zero n s = rw zero-add refl
drop-drop (suc m) n String.[] = rw (drop-nil (suc m), drop-nil n, drop-nil (suc m + n)) refl
drop-drop (suc m) n (String.◌∷◌ c s) = rw (suc-add m n) (drop-drop m n s)

take_all : (n : ℕ) (s : String) → length (codes s) ≤ n → take_text n s ≡ s
unfolding take_text
take_all zero String.[] h = refl
take_all zero (String.◌∷◌ c s) h = absurd (omega arith)
take_all (suc n) String.[] h = refl
take_all (suc n) (String.◌∷◌ c s) h = ap (String.◌∷◌ c) (take_all n s (omega arith))

length-drop-le :
    (m n : ℕ) (s : String) → length (codes s) ≤ n + m → length (codes (drop_text n s)) ≤ m
unfolding drop_text
length-drop-le m zero s h = omega arith
length-drop-le m (suc n) String.[] h = omega arith
length-drop-le m (suc n) (String.◌∷◌ c s) h = length-drop-le m n s (omega arith)

take-IsCode : (n : ℕ) (s : String) → IsCode s → IsCode (take_text n s)
unfolding take_text
take-IsCode zero s h = tt
take-IsCode (suc n) String.[] h = tt
take-IsCode (suc n) (String.◌∷◌ c s) h = (h.0, take-IsCode n s h.1)

drop-IsCode : (n : ℕ) (s : String) → IsCode s → IsCode (drop_text n s)
unfolding drop_text
drop-IsCode zero s h = h
drop-IsCode (suc n) String.[] h = tt
drop-IsCode (suc n) (String.◌∷◌ c s) h = drop-IsCode n s h.1

keep-dash : (s : String) → keep_charset ("-" +++ s) ≡ keep_charset s
unfolding keep_charset ◌+++◌ in_charset any
keep-dash s = refl

quarters :
    (s : String)
    → length (codes s) ≤ 12
    → take_text 4 s +++ take_text 4 (drop_text 4 s) +++ take_text 4 (drop_text 8 s) ≡ s
quarters s h =
    rw
      (
        take_all 4 (drop_text 8 s) (length-drop-le 4 8 s h),
        ← drop-drop 4 4 s,
        take-drop 4 (drop_text 4 s),
        take-drop 4 s,
      )
      refl

canonicalize-format :
    (upper : String → String) (s : String)
    → IsCode s
    → length (codes s) ≤ code_length
    → upper (format_pairing_code s) ≡ format_pairing_code s
    → canonicalize_pairing_code upper (format_pairing_code s) ≡ s
unfolding canonicalize_pairing_code format_pairing_code
canonicalize-format upper s h short same =
    let a = take_text 4 s in
    let b = take_text 4 (drop_text 4 s) in
    let c = take_text 4 (drop_text 8 s) in
    let kept : keep_charset (a +++ "-" +++ b +++ "-" +++ c) ≡ a +++ b +++ c =
      rw
        (
          keep-append a ("-" +++ b +++ "-" +++ c),
          keep-dash (b +++ "-" +++ c),
          keep-append b ("-" +++ c),
          keep-dash c,
          keep-IsCode a (take-IsCode 4 s h),
          keep-IsCode b (take-IsCode 4 (drop_text 4 s) (drop-IsCode 4 s h)),
          keep-IsCode c (take-IsCode 4 (drop_text 8 s) (drop-IsCode 8 s h)),
        )
        refl in
    ground (arith, same, kept, quarters s short)

char_at-in_charset :
    (s : String) (i : ℕ) (d : Char)
    → IsCode s
    → in_charset d ≡ true
    → in_charset (char_at s i d) ≡ true
char_at-in_charset String.[] i d h k = k
char_at-in_charset (String.◌∷◌ c s) zero d h k = h.0
char_at-in_charset (String.◌∷◌ c s) (suc i) d h k = char_at-in_charset s i d h.1 k

charset-IsCode : IsCode charset
unfolding in_charset any
charset-IsCode = (
  refl,
  (
    refl,
    (
      refl,
      (
        refl,
        (
          refl,
          (
            refl,
            (
              refl,
              (
                refl,
                (
                  refl,
                  (
                    refl,
                    (
                      refl,
                      (refl, (refl, (refl, (refl, (refl, (refl, (refl, (refl, (refl, tt))))))))),
                    ),
                  ),
                ),
              ),
            ),
          ),
        ),
      ),
    ),
  ),
)

first-in_charset : in_charset first_char ≡ true
unfolding in_charset any
first-in_charset = refl

draw-IsCode : (n : ℕ) (bytes : List ℕ) → IsCode (draw n bytes) × (length (codes (draw n bytes)) ≤ n)
unfolding draw
draw-IsCode zero bytes = (tt, omega arith)
draw-IsCode (suc n) [] = (tt, omega arith)
draw-IsCode (suc n) (b ∷ bytes) = elim (Bool-cases (leb reject_threshold b)) [
  | inl high ↦ rw high (draw-IsCode (suc n) bytes)
  | inr low ↦
      let (ok_, short) = draw-IsCode n bytes in
      rw low (
        (char_at-in_charset charset (b % 20) first_char charset-IsCode first-in_charset, ok_),
        omega (arith, short),
      )
]

-- A code that was drawn at random and printed is read back as itself: the operator may paste it with
-- its dashes, as long as `toUpperCase` leaves the printed text as it is.
pub canonicalize-format-generate :
    (upper : String → String) (bytes : List ℕ)
    → upper (format_pairing_code (generate_pairing_code bytes))
      ≡ format_pairing_code (generate_pairing_code bytes)
    → canonicalize_pairing_code upper (format_pairing_code (generate_pairing_code bytes))
      ≡ generate_pairing_code bytes
unfolding generate_pairing_code
canonicalize-format-generate upper bytes same =
    let (good, short) = draw-IsCode code_length bytes in
    canonicalize-format upper (draw code_length bytes) good short same
