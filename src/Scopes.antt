-- ===== src/Scopes.antt =====
-- scopes.ts: scope tokens, bounded scope lists, and the scopes that a request gets.
-- A scope that the program takes as unknown is a string here, and an array is a list of strings.
pub mod Laws
mod Tests
use mcp_sso.Common.{
  ℕ, ◌+◌, ◌-◌, ◌*◌, String, List, [], ◌∷◌, ◌++◌, Option, none, some, Bool, true, false, not, ◌&&◌,
  ◌||◌, ◌==◌, leb, ltb, nat_eq, between, codes, all, length, includes, keep_if, is_space, text_lt,
  if◌then◌else◌, utf8_length,
}
use Prim.Native.Char.{Char, code}
use mcp_sso.Errors.{Thrown, Result, ok, err, oauth_error, ◌>>=◌, ◌>>◌, require}

abbrev pub max_scope_entries : ℕ
max_scope_entries = 128

abbrev pub max_scope_token_bytes : ℕ
max_scope_token_bytes = 256

abbrev pub max_scope_claim_bytes : ℕ
max_scope_claim_bytes = 32895

abbrev pub invalid_scope : Thrown
invalid_scope = oauth_error "invalid_scope" "Requested scope is not supported" 400

-- [\x21\x23-\x5B\x5D-\x7E]
abbrev is_scope_char : ℕ → Bool
is_scope_char c = nat_eq c 0x21 || between 0x23 0x5b c || between 0x5d 0x7e c

unfoldable pub is_scope_token : String → Bool
unfolding all
is_scope_token value = let cs = codes value in ltb 0 (length cs) && all is_scope_char cs

unfoldable pub is_bounded_scope_token : String → Bool
unfolding is_scope_token utf8_length
is_bounded_scope_token value =
    is_scope_token value && leb (utf8_length (codes value)) max_scope_token_bytes

-- The loop of `snapshotBoundedScopeList`, with the bytes counted so far.
unfoldable pub bounded_scopes : ℕ → List String → Bool
unfolding utf8_length
bounded_scopes bytes [] = true
bounded_scopes bytes (s ∷ ss) =
    is_bounded_scope_token s
    && leb (bytes + utf8_length (codes s)) max_scope_claim_bytes
    && bounded_scopes (bytes + utf8_length (codes s)) ss

-- `snapshotBoundedScopeList` finds no problem.
unfoldable pub is_bounded_list : List String → Bool
unfolding bounded_scopes
is_bounded_list scopes =
    leb (length scopes) max_scope_entries && bounded_scopes (length scopes - 1) scopes

-- `every((scope) => catalog.includes(scope))`
unfoldable pub all_in : List String → List String → Bool
unfolding includes
all_in catalog [] = true
all_in catalog (s ∷ ss) = includes catalog s && all_in catalog ss

unfoldable pub stored_scopes : List String → List String → Result (List String)
unfolding is_bounded_list all_in
stored_scopes value catalog =
    if is_bounded_list value && all_in catalog value
    then ok value
    else err (oauth_error "invalid_grant" "Stored grant scopes are malformed" 400)

-- `scopes.sort().join(" ")`
unfoldable pub insert_sorted : String → List String → List String
unfolding text_lt
insert_sorted s [] = s ∷ []
insert_sorted s (t ∷ ts) =
    let rest = insert_sorted s ts in if text_lt t s then t ∷ rest else s ∷ t ∷ ts

unfoldable pub sort_scopes : List String → List String
unfolding insert_sorted
sort_scopes [] = []
sort_scopes (s ∷ ss) = insert_sorted s (sort_scopes ss)

unfoldable pub join_scopes : List String → String
join_scopes [] = ""
join_scopes (s ∷ []) = s
join_scopes (s ∷ t ∷ ss) =
    Prim.Native.String.◌++◌ s (Prim.Native.String.◌++◌ " " (join_scopes (t ∷ ss)))

unfoldable pub scope_string : List String → String
unfolding sort_scopes join_scopes
scope_string scopes = join_scopes (sort_scopes scopes)

unfoldable pub access_scope_string : List String → Result String
unfolding is_bounded_list scope_string
access_scope_string scopes =
    if is_bounded_list scopes then ok (scope_string scopes) else err invalid_scope

-- `value.trim()`
abbrev pub is_blank_text : String → Bool
is_blank_text String.[] = true
is_blank_text (String.◌∷◌ c s) = false

unfoldable pub trim_start : String → String
trim_start String.[] = String.[]
trim_start (String.◌∷◌ c s) =
    let rest = trim_start s in if is_space (code c) then rest else String.◌∷◌ c s

unfoldable pub trim_end : String → String
trim_end String.[] = String.[]
trim_end (String.◌∷◌ c s) =
    let rest = trim_end s in
    if is_space (code c) && is_blank_text rest then String.[] else String.◌∷◌ c rest

unfoldable pub trim_text : String → String
unfolding trim_start trim_end
trim_text value = trim_end (trim_start value)

-- `value.split(/\s+/)`
abbrev push_char : Char → List String → List String
push_char c [] = String.◌∷◌ c String.[] ∷ []
push_char c (w ∷ ws) = String.◌∷◌ c w ∷ ws

abbrev starts_blank : String → Bool
starts_blank String.[] = false
starts_blank (String.◌∷◌ c s) = is_space (code c)

unfoldable pub split_spaces : String → List String
split_spaces String.[] = "" ∷ []
split_spaces (String.◌∷◌ c s) =
    let rest = split_spaces s in
    if is_space (code c) then if starts_blank s then rest else "" ∷ rest else push_char c rest

-- What a request gives as its scope: nothing, an array, or a string.
pub data ScopeInput : Type 0 where
  absent : ScopeInput
  listed : List String → ScopeInput
  text : String → ScopeInput

abbrev at_most_entries : List String → Result (List String)
at_most_entries items = if leb (length items) max_scope_entries then ok items else err invalid_scope

unfoldable pub scope_items : ScopeInput → List String → Result (List String)
unfolding split_spaces utf8_length
scope_items absent defaults = at_most_entries defaults
scope_items (listed items) defaults = at_most_entries items
scope_items (text value) defaults =
    if leb (utf8_length (codes value)) max_scope_claim_bytes
    then at_most_entries (split_spaces value)
    else err invalid_scope

abbrev pub push_new : List String → String → List String
push_new out v = if includes out v then out else out ++ v ∷ []

-- The loop of `normalizeScopes`.
unfoldable pub normalize_items : List String → List String → List String → Result (List String)
unfolding trim_text is_bounded_scope_token includes
normalize_items catalog out [] = ok out
normalize_items catalog out (item ∷ items) =
    let v = trim_text item in
    let rest = normalize_items catalog (if is_blank_text v then out else push_new out v) items in
    if not (is_blank_text v) && not (is_bounded_scope_token v && includes catalog v)
    then err invalid_scope
    else rest

unfoldable pub normalize_once : ScopeInput → List String → List String → Result (List String)
unfolding scope_items normalize_items
normalize_once scope catalog defaults =
    scope_items scope defaults >>= λ items. normalize_items catalog [] items

-- An empty outcome of a present scope falls back to the defaults, once.
abbrev pub or_defaults : ScopeInput → List String → List String → List String → Result (List String)
or_defaults absent catalog defaults out = ok out
or_defaults scope catalog defaults [] = normalize_once absent catalog defaults
or_defaults scope catalog defaults (s ∷ ss) = ok (s ∷ ss)

unfoldable pub normalize_scopes : ScopeInput → List String → List String → Result (List String)
unfolding normalize_once
normalize_scopes scope catalog defaults =
    normalize_once scope catalog defaults >>= λ out. or_defaults scope catalog defaults out

-- `resolveClientCredentialsScope`: the loop over the requested tokens.
unfoldable pub resolve_items :
    List String → List String → List String → List String → Result (List String)
unfolding is_bounded_scope_token includes
resolve_items ceiling catalog out [] = ok out
resolve_items ceiling catalog out (t ∷ ts) =
    let rest = resolve_items ceiling catalog (push_new out t) ts in
    if not (is_bounded_scope_token t)
    then err invalid_scope
    else if not (includes ceiling t)
    then err (oauth_error "invalid_scope" "Requested scope exceeds the client's allowedScopes" 400)
    else if not (includes catalog t)
    then err (oauth_error "invalid_scope" "Requested scope is not in the current scopeCatalog" 400)
    else rest

abbrev not_blank : String → Bool
not_blank s = not (is_blank_text s)

unfoldable pub requested_list : Option String → List String → Result (List String)
unfolding trim_text split_spaces utf8_length keep_if
requested_list none ceiling = ok ceiling
requested_list (some value) ceiling =
    if not (leb (utf8_length (codes value)) max_scope_claim_bytes)
    then err invalid_scope
    else if is_blank_text (trim_text value)
    then ok ceiling
    else at_most_entries (keep_if not_blank (split_spaces value))

unfoldable pub resolve_client_credentials_scope :
    Option String → List String → List String → Result (List String)
unfolding is_bounded_list requested_list resolve_items
resolve_client_credentials_scope requested ceiling catalog = do
  require (is_bounded_list ceiling)
      (oauth_error "invalid_scope" "Client allowedScopes are malformed" 400)
  items ← requested_list requested ceiling
  resolve_items ceiling catalog [] items

-- `requireScope`, with the test of the hierarchy as an argument.
unfoldable pub require_scope :
    List String → String → (List String → String → Bool) → Result (Unit {0})
unfolding includes
require_scope scopes required implies =
    require (includes scopes required || implies scopes required) (
      oauth_error "insufficient_scope" (Prim.Native.String.◌++◌ "Missing required scope: " required)
        403)

-- `assertAllowedScopesCeiling`
unfoldable pub assert_allowed_scopes_ceiling : Option (List String) → Result (Option (List String))
unfolding is_bounded_list
assert_allowed_scopes_ceiling none = ok none
assert_allowed_scopes_ceiling (some scopes) =
    if is_bounded_list scopes
    then ok (some scopes)
    else err
        (oauth_error "access_denied" "Identity port returned a malformed allowedScopes ceiling" 401)
