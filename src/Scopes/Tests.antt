-- ===== src/Scopes/Tests.antt =====
-- scopes.ts: requests of a small catalog.
use mcp_sso.Common.{
  String, List, [], ◌∷◌, some, ◌≡◌, refl, includes, Distinct, Within, all, utf8_length, keep_if,
  text_lt, lex_lt,
}
use mcp_sso.Errors.{ok, err}
use mcp_sso.Scopes.{
  text, normalize_scopes, normalize_once, normalize_items, scope_items,
  resolve_client_credentials_scope, resolve_items, requested_list, is_bounded_scope_token,
  is_scope_token, is_bounded_list, bounded_scopes, trim_text, trim_start, trim_end, split_spaces,
  stored_scopes, all_in, scope_string, sort_scopes, insert_sorted, join_scopes, invalid_scope,
}
use mcp_sso.Scopes.Laws.{
  IsGranted, asks, normalize_scopes-IsGranted, machine_scopes_sound, stored_scopes_sound,
}

abbrev catalog : List String
catalog = "read" ∷ "write" ∷ "admin" ∷ []

abbrev granted : List String
granted = "write" ∷ "read" ∷ []

test_requested : normalize_scopes (text "write  read write ") catalog ("read" ∷ []) ≡ ok granted
unfolding normalize_scopes normalize_once normalize_items scope_items split_spaces trim_text
    trim_start trim_end is_bounded_scope_token is_scope_token includes all utf8_length
test_requested = refl

test_defaults : normalize_scopes (text " ") catalog ("read" ∷ []) ≡ ok ("read" ∷ [])
unfolding normalize_scopes normalize_once normalize_items scope_items split_spaces trim_text
    trim_start trim_end is_bounded_scope_token is_scope_token includes all utf8_length
test_defaults = refl

test_unknown : normalize_scopes (text "read root") catalog [] ≡ err invalid_scope
unfolding normalize_scopes normalize_once normalize_items scope_items split_spaces trim_text
    trim_start trim_end is_bounded_scope_token is_scope_token includes all utf8_length
test_unknown = refl

test_sorted : scope_string granted ≡ "read write"
unfolding scope_string sort_scopes insert_sorted join_scopes text_lt lex_lt
test_sorted = refl

normalize_scopes-IsGranted_example : IsGranted catalog granted
normalize_scopes-IsGranted_example =
    normalize_scopes-IsGranted (text "write  read write ") catalog ("read" ∷ []) granted
      test_requested

test_machine : resolve_client_credentials_scope (some "write read") granted catalog ≡ ok granted
unfolding resolve_client_credentials_scope resolve_items requested_list is_bounded_list
    bounded_scopes split_spaces trim_text trim_start trim_end is_bounded_scope_token is_scope_token
    includes all utf8_length keep_if
test_machine = refl

machine_scopes_sound_example :
    Distinct granted
    × Within granted granted
    × Within catalog granted
    × ((w : String) → includes granted w ≡ asks (some "write read") granted w)
machine_scopes_sound_example =
    machine_scopes_sound (some "write read") granted catalog granted test_machine

test_stored : stored_scopes granted catalog ≡ ok granted
unfolding stored_scopes all_in is_bounded_list bounded_scopes is_bounded_scope_token is_scope_token
    includes all utf8_length
test_stored = refl

stored_scopes_sound_example : (granted ≡ granted) × Within catalog granted
stored_scopes_sound_example = stored_scopes_sound granted catalog granted test_stored
