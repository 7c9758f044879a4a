-- ===== src/Redirect/Spelling.antt =====
-- redirect-entry.ts: which texts pass the grammar's tests on the raw spelling.
use mcp_sso.Common.{
  ℕ, ◌≤◌, ◌<◌, List, [], ◌∷◌, ◌++◌, none, some, true, false, ◌≡◌, ◌≢◌, refl, ◌⊎◌, inl, inr, arith,
  codes, nat_eq, is_hex, is_space, any, has_prefix, utf8_length, All, Bool-cases, Option-cases,
}
use mcp_sso.Redirect.Entry.{
  raw_problem, is_control, has_code, hex_pair, control_pair, has_bad_escape, has_control_escape,
  after_mark, until_slash,
}

-- A code that may stand in an entry.
abbrev pub IsPlain : ℕ → Type 0
IsPlain c =
    (is_space c ≡ false)
    × (0x1f < c)
    × (c ≢ 0x7f)
    × (c ≢ b'*')
    × (c ≢ 0x5c)
    × (c ≢ b'?')
    × (c ≢ b'#')

-- What follows a percent sign: two hex digits, which are those of no control character.
abbrev pub IsEscape : List ℕ → Type 0
IsEscape (a ∷ b ∷ cs) =
    (is_hex a ≡ true)
    × (is_hex b ≡ true)
    × (a ≢ b'0')
    × (a ≢ b'1')
    × ¬ ((a ≡ b'7') × ((b ≡ b'f') ⊎ (b ≡ b'F')))
IsEscape _ = ⊥

-- Each percent sign starts an escape.
abbrev pub AreEscaped : List ℕ → Type 0
AreEscaped [] = Unit
AreEscaped (c ∷ cs) = ((c ≢ b'%') ⊎ IsEscape cs) × AreEscaped cs

-- A scheme, the first mark, an authority without userinfo, and a path or nothing.
pub record IsAbsolute (cs : List ℕ) : Type 0 where
  pub scheme : List ℕ
  pub host : List ℕ
  pub rest : List ℕ
  pub parts : cs ≡ scheme ++ (codes "://" ++ (host ++ rest))
  pub named : scheme ≢ []
  pub first : (xs ys : List ℕ) → scheme ≢ xs ++ (codes "://" ++ ys)
  pub no_userinfo : All (λ c. (c ≢ b'@') × (c ≢ b'/')) host
  pub to_path : (rest ≡ []) ⊎ ((ds : List ℕ) × (rest ≡ b'/' ∷ ds))

pub record IsSpelled (cs : List ℕ) : Type 0 where
  pub short : utf8_length cs ≤ 2048
  pub something : cs ≢ []
  pub plain : All IsPlain cs
  pub escaped : AreEscaped cs
  pub absolute : IsAbsolute cs

plain_codes :
    (cs : List ℕ)
    → any is_space cs ≡ false
    → any is_control cs ≡ false
    → has_code b'*' cs ≡ false
    → has_code 0x5c cs ≡ false
    → has_code b'?' cs ≡ false
    → has_code b'#' cs ≡ false
    → All IsPlain cs
unfolding any
plain_codes [] a b c d e f = tt
plain_codes (x ∷ xs) a b c d e f = (
  (
    ground (arith, a),
    ground (arith, b),
    ground (arith, b),
    ground (arith, c),
    ground (arith, d),
    ground (arith, e),
    ground (arith, f),
  ),
  plain_codes xs (ground (arith, a)) (ground (arith, b)) (ground (arith, c)) (ground (arith, d))
      (ground (arith, e)) (ground (arith, f)),
)

pair-IsEscape : (cs : List ℕ) → hex_pair cs ≡ true → control_pair cs ≡ false → IsEscape cs
pair-IsEscape [] h k = ground (arith, h)
pair-IsEscape (a ∷ []) h k = ground (arith, h)
pair-IsEscape (a ∷ b ∷ cs) h k = (
  ground (arith, h),
  ground (arith, h),
  ground (arith, h, k),
  ground (arith, h, k),
  λ (seven, f). elim f [
    | inl low ↦ ground (arith, k, seven, low)
    | inr high ↦ ground (arith, k, seven, high)
  ],
)

escapes_hold :
    (cs : List ℕ) → has_bad_escape cs ≡ false → has_control_escape cs ≡ false → AreEscaped cs
unfolding has_bad_escape has_control_escape
escapes_hold [] h k = tt
escapes_hold (c ∷ cs) h k = (
  elim (Bool-cases (nat_eq c b'%')) [
    | inl percent ↦ inr (pair-IsEscape cs (ground (arith, h, percent)) (ground (arith, k, percent)))
    | inr other ↦ inl (ground (arith, other))
  ],
  escapes_hold cs (ground (arith, h)) (ground (arith, k)),
)

mark_prefix :
    (c : ℕ) (cs : List ℕ)
    → has_prefix (c ∷ cs) (codes "://") ≡ true
    → (ds : List ℕ) × (c ∷ cs ≡ codes "://" ++ ds)
unfolding has_prefix
mark_prefix c [] h = ground (arith, h)
mark_prefix c (d ∷ []) h = ground (arith, h)
mark_prefix c (d ∷ e ∷ cs) h =
    let p : c ≡ b':' = ground (arith, h) in
    let q : d ≡ b'/' = ground (arith, h) in
    let r : e ≡ b'/' = ground (arith, h) in (cs, rw (p, q, r) refl)

until_slash-rest :
    (cs : List ℕ)
    → (rest : List ℕ) × (cs ≡ until_slash cs ++ rest)
      × ((rest ≡ []) ⊎ ((ds : List ℕ) × (rest ≡ b'/' ∷ ds)))
unfolding until_slash
until_slash-rest [] = ([], refl, inl refl)
until_slash-rest (c ∷ cs) = elim (Bool-cases (nat_eq c b'/')) [
  | inl slash ↦
      let same : c ≡ b'/' = ground (arith, slash) in
      rw slash ((c ∷ cs), refl, inr (cs, rw same refl))
  | inr other ↦
      let (rest, parts, path) = until_slash-rest cs in rw other (rest, rw (← parts) refl, path)
]

no_userinfo_before_slash :
    (cs : List ℕ)
    → has_code b'@' (until_slash cs) ≡ false
    → All (λ c. (c ≢ b'@') × (c ≢ b'/')) (until_slash cs)
unfolding until_slash any
no_userinfo_before_slash [] h = tt
no_userinfo_before_slash (c ∷ cs) h = elim (Bool-cases (nat_eq c b'/')) [
  | inl slash ↦ rw slash tt
  | inr other ↦ rw other (
    (ground (arith, h, other), ground (arith, other)),
    no_userinfo_before_slash cs (ground (arith, h, other)),
  )
]

has_prefix-append : (xs bs ps : List ℕ) → has_prefix xs ps ≡ true → has_prefix (xs ++ bs) ps ≡ true
unfolding has_prefix
has_prefix-append xs bs [] h = any_list (xs ++ bs)
  where
    any_list : (cs : List ℕ) → has_prefix cs [] ≡ true
    any_list cs = refl
has_prefix-append [] bs (p ∷ ps) h = ground (arith, h)
has_prefix-append (a ∷ xs) bs (p ∷ ps) h = ground (arith, h, has_prefix-append xs bs ps)

after_mark-mark : (ds : List ℕ) → after_mark (codes "://" ++ ds) ≡ some ds
unfolding after_mark has_prefix
after_mark-mark ds = refl

split_mark :
    (cs ds : List ℕ)
    → after_mark cs ≡ some ds
    → (xs : List ℕ) × (cs ≡ xs ++ (codes "://" ++ ds)) × (after_mark xs ≡ none)
unfolding after_mark
split_mark [] ds h = ground (arith, h)
split_mark (c ∷ cs) ds h = elim (Bool-cases (has_prefix (c ∷ cs) (codes "://"))) [
  | inl here ↦
      let (es, parts) = mark_prefix c cs here in
      let found : some es ≡ some ds = cc (after_mark-mark es, parts, h) in
      let same : es ≡ ds = ground (arith, found) in ([], rw (← same) parts, refl)
  | inr later ↦
      let (xs, parts, first) = split_mark cs ds (ground (arith, h, later)) in
      let unmarked : has_prefix (c ∷ xs) (codes "://") ≡ false =
        elim (Bool-cases (has_prefix (c ∷ xs) (codes "://"))) [
          | inl mark ↦
              let longer = has_prefix-append (c ∷ xs) (codes "://" ++ ds) (codes "://") mark in
              let whole : c ∷ cs ≡ (c ∷ xs) ++ (codes "://" ++ ds) = cc parts in
              absurd (cc (whole, longer, later))
          | inr quiet ↦ quiet
        ] in
      (c ∷ xs, rw (← parts) refl, rw (unmarked, first) refl)
]

mark_found : (xs ys : List ℕ) → after_mark (xs ++ (codes "://" ++ ys)) ≢ none
mark_found [] ys h = cc (after_mark-mark ys, h)
mark_found (x ∷ xs) ys h = mark_found xs ys (unfold after_mark in ground (arith, h))

authority-IsAbsolute :
    (cs ds scheme : List ℕ)
    → cs ≡ scheme ++ (codes "://" ++ ds)
    → after_mark scheme ≡ none
    → has_prefix cs (codes "://") ≡ false
    → has_code b'@' (until_slash ds) ≡ false
    → IsAbsolute cs
authority-IsAbsolute cs ds scheme parts first named quiet =
    let (rest, split, path) = until_slash-rest ds in
    record {
      scheme = scheme;
      host = until_slash ds;
      rest = rest;
      parts = rw (← split) parts;
      named = λ empty.
          let marked : has_prefix (codes "://" ++ ds) (codes "://") ≡ true =
            unfold has_prefix in refl in
          let whole : cs ≡ codes "://" ++ ds = cc (parts, empty) in cc (whole, marked, named);
      first = λ xs ys same. mark_found xs ys (cc (same, first));
      no_userinfo = no_userinfo_before_slash ds quiet;
      to_path = path;
    }

-- A text that passes the tests on its raw spelling has the spelling of an entry.
pub raw_problem-IsSpelled : (cs : List ℕ) → raw_problem cs ≡ none → IsSpelled cs
unfolding raw_problem
raw_problem-IsSpelled cs h = record {
  short = ground (arith, h);
  something = λ empty. ground (arith, h, empty);
  plain =
      plain_codes cs (ground (arith, h)) (ground (arith, h)) (ground (arith, h)) (ground (arith, h))
        (ground (arith, h)) (ground (arith, h));
  escaped = escapes_hold cs (ground (arith, h)) (ground (arith, h));
  absolute = elim (Option-cases (after_mark cs)) [
    | inl missing ↦ ground (arith, h, missing)
    | inr (ds, e) ↦
        let (scheme, parts, first) = split_mark cs ds e in
        authority-IsAbsolute cs ds scheme parts first (ground (arith, h, e)) (ground (arith, h, e))
  ];
}
