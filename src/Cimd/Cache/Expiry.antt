-- ===== src/Cimd/Cache/Expiry.antt =====
-- cimd/cache.ts: whether and until when a response may be cached.
-- `toLowerCase` is a parameter. What parseDate made of the `Date` header is an argument.
use mcp_sso.Common.{
  ℕ, ◌+◌, ◌-◌, ◌*◌, String, List, [], ◌∷◌, Option, none, some, Bool, true, false, not, ◌&&◌, ◌||◌,
  ◌==◌, leb, ltb, nat_eq, between, codes, all, any, length, is_digit, is_none, if◌then◌else◌,
}
use Prim.Native.Char.{Char, code}
use mcp_sso.Store.Checks.{max_safe_integer}
use mcp_sso.Scopes.{trim_text}

abbrev pub min_cacheable_max_age : ℕ
min_cacheable_max_age = 60

-- What the guarded fetcher keeps of a response's headers, each with all its occurrences.
pub record CimdCacheView : Type 0 where
  pub valid : Bool
  pub cache_control : Option (List String)
  pub vary : Option (List String)
  pub age : Option (List String)

pub data QuoteMode : Type 0 where
  outside inside escaped : QuoteMode

abbrev push_char : Char → List String → List String
push_char c [] = String.◌∷◌ c String.[] ∷ []
push_char c (w ∷ ws) = String.◌∷◌ c w ∷ ws

abbrev next_mode : QuoteMode → ℕ → QuoteMode
next_mode outside c = if nat_eq c 0x22 then inside else outside
next_mode inside c = if nat_eq c 0x5c then escaped else if nat_eq c 0x22 then outside else inside
next_mode escaped c = inside

abbrev is_outside : QuoteMode → Bool
is_outside outside = true
is_outside _ = false

-- `splitDirectives`: at the commas outside a quoted string.
unfoldable pub split_from : QuoteMode → String → List String
split_from mode String.[] = "" ∷ []
split_from mode (String.◌∷◌ c s) =
    let rest = split_from (next_mode mode (code c)) s in
    if is_outside mode && nat_eq (code c) b',' then "" ∷ rest else push_char c rest

unfoldable pub split_directives : String → List String
unfolding split_from
split_directives header = split_from outside header

abbrev is_token_code : ℕ → Bool
is_token_code c =
    nat_eq c b'!'
    || between b'#' 0x27 c
    || nat_eq c b'*'
    || nat_eq c b'+'
    || nat_eq c b'-'
    || nat_eq c b'.'
    || between 0x5e 0x60 c
    || nat_eq c b'|'
    || nat_eq c b'~'
    || is_digit c
    || between b'a' b'z' c

-- DIRECTIVE_NAME
unfoldable pub is_directive_name : String → Bool
unfolding all
is_directive_name s = let cs = codes s in ltb 0 (length cs) && all is_token_code cs

abbrev is_quoted_code : ℕ → Bool
is_quoted_code c =
    nat_eq c 9
    || nat_eq c 0x20
    || nat_eq c 0x21
    || between 0x23 0x5b c
    || between 0x5d 0x7e c
    || between 0x80 0xff c

abbrev is_pair_code : ℕ → Bool
is_pair_code c = nat_eq c 9 || between 0x20 0x7e c || between 0x80 0xff c

abbrev is_end : List ℕ → Bool
is_end [] = true
is_end (c ∷ cs) = false

-- QUOTED_STRING, behind its opening quote.
unfoldable pub quoted_rest : Bool → List ℕ → Bool
quoted_rest pair [] = false
quoted_rest true (c ∷ cs) = let rest = quoted_rest false cs in is_pair_code c && rest
quoted_rest false (c ∷ cs) =
    let paired = quoted_rest true cs in
    let rest = quoted_rest false cs in
    if nat_eq c 0x22 then is_end cs else if nat_eq c 0x5c then paired else is_quoted_code c && rest

abbrev is_quoted : List ℕ → Bool
is_quoted [] = false
is_quoted (c ∷ cs) = nat_eq c 0x22 && quoted_rest false cs

-- The text before the first "=", and what follows it if there is one.
abbrev keep_char : Char → String × Option String → String × Option String
keep_char c (before, after) = (String.◌∷◌ c before, after)

unfoldable pub split_equals : String → String × Option String
split_equals String.[] = ("", none)
split_equals (String.◌∷◌ c s) =
    let rest = split_equals s in if nat_eq (code c) b'=' then ("", some s) else keep_char c rest

-- A decimal number of digits only, read from the left.
unfoldable pub decimal_from : ℕ → List ℕ → Option ℕ
decimal_from n [] = some n
decimal_from n (c ∷ cs) =
    let rest = decimal_from (n * 10 + (c - b'0')) cs in if is_digit c then rest else none

abbrev if_safe : Option ℕ → Option ℕ
if_safe none = none
if_safe (some n) = if leb n max_safe_integer then some n else none

-- UNSIGNED_DECIMAL, and a safe integer.
unfoldable pub unsigned_decimal : String → Option ℕ
unfolding decimal_from
unsigned_decimal value =
    if nat_eq (length (codes value)) 0 then none else if_safe (decimal_from 0 (codes value))

-- The lifetimes read so far.
pub record Lifetimes : Type 0 where
  pub max_age : Option ℕ
  pub s_maxage : Option ℕ

abbrev restricts : String → Bool
restricts name = name == "no-store" || name == "no-cache" || name == "private"

abbrev with_lifetime : String → Lifetimes → Option ℕ → Option Lifetimes
with_lifetime name l none = none
with_lifetime name l (some n) =
    if name == "max-age"
    then if is_none l.max_age then some (record l { max_age = some n }) else none
    else if is_none l.s_maxage
    then some (record l { s_maxage = some n })
    else none

abbrev optional_decimal : Option String → Option ℕ
optional_decimal none = none
optional_decimal (some v) = unsigned_decimal v

abbrev pub effective : Option Lifetimes → Option ℕ
effective none = none
effective (some l) = elim l.s_maxage [ some n ↦ some n | none ↦ l.max_age ]

abbrev pub long_enough : Option ℕ → Option ℕ
long_enough none = none
long_enough (some n) = if leb min_cacheable_max_age n then some n else none

module _ (lower : String → String) where
  unfoldable pub is_well_formed_value : String → Bool
  unfolding is_directive_name quoted_rest
  is_well_formed_value value = is_directive_name (lower value) || is_quoted (codes value)

  abbrev value_fits : Option String → Bool
  value_fits none = true
  value_fits (some v) = is_well_formed_value v

  -- One directive that is not blank: `none` makes the header non-cacheable.
  abbrev read_named : String → Option String → Lifetimes → Option Lifetimes
  read_named name value l =
      if not (is_directive_name name)
      then none
      else if not (value_fits value)
      then none
      else if restricts name
      then none
      else if not (name == "max-age" || name == "s-maxage")
      then some l
      else with_lifetime name l (optional_decimal value)

  unfoldable pub read_directive : String → Lifetimes → Option Lifetimes
  unfolding is_well_formed_value is_directive_name split_equals unsigned_decimal trim_text
  read_directive raw l =
      let directive = trim_text raw in
      if directive == ""
      then some l
      else read_named (lower (trim_text (split_equals directive).0)) (split_equals directive).1 l

  abbrev and_then : (Lifetimes → Option Lifetimes) → Option Lifetimes → Option Lifetimes
  and_then f none = none
  and_then f (some l) = f l

  unfoldable pub read_directives : List String → Lifetimes → Option Lifetimes
  unfolding read_directive
  read_directives [] l = some l
  read_directives (d ∷ ds) l = and_then (read_directives ds) (read_directive d l)

  unfoldable pub parse_max_age : Option (List String) → Option ℕ
  unfolding read_directives split_directives
  parse_max_age (some (header ∷ [])) = long_enough (
      effective
        (read_directives (split_directives header) (record { max_age = none; s_maxage = none })))
  parse_max_age _ = none

-- `value.split(",")`
unfoldable pub split_commas : String → List String
split_commas String.[] = "" ∷ []
split_commas (String.◌∷◌ c s) =
    let rest = split_commas s in if nat_eq (code c) b',' then "" ∷ rest else push_char c rest

unfoldable pub has_vary_star : Option (List String) → Bool
unfolding any split_commas trim_text
has_vary_star none = false
has_vary_star (some values) =
    any (λ value. any (λ part. trim_text part == "*") (split_commas value)) values

unfoldable pub parse_age : Option (List String) → Option ℕ
unfolding unsigned_decimal
parse_age none = some 0
parse_age (some (value ∷ [])) = unsigned_decimal value
parse_age (some _) = none

-- parseDate: no `Date` header, a malformed one, or its instant.
pub data DateValue : Type 0 where
  absent malformed : DateValue
  at : ℕ → DateValue

abbrev larger : ℕ → ℕ → ℕ
larger a b = if leb a b then b else a

abbrev smaller : ℕ → ℕ → ℕ
smaller a b = if leb a b then a else b

-- `t1Ms - date`, and 0 where it would be negative.
abbrev pub apparent_age : DateValue → ℕ → ℕ
apparent_age (at date) t1 = t1 - date
apparent_age _ t1 = 0

abbrev is_malformed : DateValue → Bool
is_malformed malformed = true
is_malformed _ = false

-- The arithmetic: the lifetime, capped, less the corrected initial age.
unfoldable pub expiry_of : (max_age age cap t0 t1 : ℕ) → DateValue → Option ℕ
expiry_of max_age age cap t0 t1 date =
    let used = larger (apparent_age date t1) (age * 1000 + (t1 - t0)) in
    let lifetime = smaller max_age cap * 1000 in
    if ltb t1 t0 || is_malformed date
    then none
    else if ltb used lifetime
    then some (t1 + (lifetime - used))
    else none

abbrev pub expiry_from : Option ℕ → Option ℕ → (cap t0 t1 : ℕ) → DateValue → Option ℕ
expiry_from (some max_age) (some age) cap t0 t1 date = expiry_of max_age age cap t0 t1 date
expiry_from _ _ cap t0 t1 date = none

unfoldable pub compute_cache_expiry_ms :
    (lower : String → String) → Option CimdCacheView → (cap t0 t1 : ℕ) → DateValue → Option ℕ
unfolding parse_max_age has_vary_star parse_age expiry_of
compute_cache_expiry_ms lower none cap t0 t1 date = none
compute_cache_expiry_ms lower (some view) cap t0 t1 date =
    if not view.valid || has_vary_star view.vary
    then none
    else expiry_from (parse_max_age lower view.cache_control) (parse_age view.age) cap t0 t1 date
