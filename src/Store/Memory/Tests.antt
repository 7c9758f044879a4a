-- ===== src/Store/Memory/Tests.antt =====
-- store/memory.ts: a store with one refresh token family, and the theorems of the store on it.
use mcp_sso.Common.{
  String, [], ◌∷◌, Option, none, some, true, false, ◌≡◌, ◌↔◌, ◌≢◌, refl, ◌⊎◌, includes, any, all,
  Distinct, trim, drop_spaces, same_codes, text_lt, lex_lt,
}
use mcp_sso.Errors.{ok, err, store_input}
use mcp_sso.Subject.{identity_subject}
use mcp_sso.Dict.{get, put, values, remove, retain}
use mcp_sso.Store.{number, AuthCodeRecord, RefreshTokenRecord, stored}
use mcp_sso.Store.Checks.{
  normalize_refresh_token_write, validate_refresh_token, validate_auth_code, validate_rotation,
  assert_store_subject, assert_store_instance_id, is_store_instance_id, assert_sha256_hex,
  is_sha256_hex, assert_utc_iso_timestamp, is_utc_iso, matches_shape, assert_refresh_resource,
  assert_grant_generation, grant_generation_for_write, grant_generation_from_stored,
}
use mcp_sso.Store.Memory.State.{
  MemoryStore, create_memory_store, StoredRefresh, StoredFamily, ensure_open,
}
use mcp_sso.Store.Memory.Codes.{
  consume_auth_code, consume_found, commit_consent_approval, commit, stamp_code, swept,
}
use mcp_sso.Store.Memory.Tokens.{
  save_refresh_token, insert_token, checked_input, stamp_token, family_for,
  revoke_refresh_token_family,
}
use mcp_sso.Store.Memory.Rotation.{
  rotate_refresh_token, rotate_found, rotate_live, rotate_current, checked_next, rotate_replayed,
}
use mcp_sso.Store.Memory.Expiry.{
  find_granted_scopes, is_active, collect_scopes, merge_scopes, sweep_expired, sweep, family_valid,
  drop_empty, has_member,
}
use mcp_sso.Store.Memory.Rotating.{IsFound, IsLive, gave}
use mcp_sso.Store.Memory.Outcomes.{IsOutcome, rotate_outcomes}
use mcp_sso.Store.Memory.SingleUse.{consume_sound, commit_atomic}
use mcp_sso.Store.Memory.Replay.{consent_never_reused, code_never_reused}
use mcp_sso.Store.Memory.Revocation.{FitsFamily, replay_ends_family, revoked_stays_revoked}
use mcp_sso.Store.Memory.Success.{rotate_succeeds, rotated}
use mcp_sso.Store.Memory.Atomic.{rotate_atomic}
use mcp_sso.Store.Memory.Valid.{IsValid}
use mcp_sso.Store.Memory.Keeps.{run-create-IsValid}
use mcp_sso.Store.Memory.Sweeping.{sweep_keeps_family}
use mcp_sso.Store.Memory.Granted.{IsGrant, find_granted_scopes_exact}
use mcp_sso.Store.Memory.{step, run, saves_token, sweeps, rotates, rotates_id}

abbrev instance_id : String
instance_id = "AAAAAAAAAAAAAAAAAAAAAAAA"

abbrev other_id : String
other_id = "BBBBBBBBBBBBBBBBBBBBBBBB"

abbrev jti : String
jti = "jti-1"

abbrev hash_a : String
hash_a = "aaaaaaaaaaaaaaaaaaaaaaaaaaaaaaaaaaaaaaaaaaaaaaaaaaaaaaaaaaaaaaaa"

abbrev hash_b : String
hash_b = "bbbbbbbbbbbbbbbbbbbbbbbbbbbbbbbbbbbbbbbbbbbbbbbbbbbbbbbbbbbbbbbb"

abbrev hash_c : String
hash_c = "cccccccccccccccccccccccccccccccccccccccccccccccccccccccccccccccc"

abbrev morning : String
morning = "2026-07-03T08:00:00.000Z"

abbrev noon : String
noon = "2026-07-03T12:00:00.000Z"

abbrev evening : String
evening = "2026-07-03T20:00:00.000Z"

abbrev code : AuthCodeRecord
code = record {
  code_hash = hash_a;
  client_id = "client";
  subject = "alice";
  redirect_uri = "https://app.example/cb";
  resource = "https://mcp.example/mcp";
  scopes = "read" ∷ [];
  code_challenge = "challenge";
  code_challenge_method = "S256";
  expires_at = noon;
  grant_generation = number 1;
}

abbrev token_named : String → Option String → RefreshTokenRecord
token_named hash previous = record {
  token_hash = hash;
  family_id = "family";
  previous_token_hash = previous;
  client_id = "client";
  subject = "alice";
  resource = some "https://mcp.example/mcp";
  scopes = "read" ∷ "write" ∷ [];
  expires_at = evening;
  grant_generation = number 1;
}

abbrev empty_store : MemoryStore
empty_store = create_memory_store instance_id

abbrev one_token : MemoryStore
one_token = run (saves_token (token_named hash_a none) ∷ []) empty_store

empty-IsValid : IsValid empty_store
unfolding run
empty-IsValid = run-create-IsValid instance_id []

-- What the first save leaves.
abbrev saved_store : MemoryStore
saved_store = record empty_store {
  refresh_tokens = (hash_a, stamp_token (token_named hash_a none)) ∷ [];
  families = ("family", family_for (stamp_token (token_named hash_a none))) ∷ [];
}

test_saved : one_token ≡ saved_store
unfolding run step save_refresh_token insert_token ensure_open checked_input
    normalize_refresh_token_write validate_refresh_token assert_refresh_resource
    assert_grant_generation grant_generation_for_write grant_generation_from_stored
    assert_store_subject identity_subject assert_sha256_hex is_sha256_hex assert_utc_iso_timestamp
    is_utc_iso matches_shape trim drop_spaces all any same_codes get put
test_saved = refl

saved-IsValid : IsValid saved_store
saved-IsValid =
    rw (← test_saved) (run-create-IsValid instance_id (saves_token (token_named hash_a none) ∷ []))

run-create-IsValid_example :
    IsValid (run (saves_token (token_named hash_a none) ∷ sweeps noon ∷ []) empty_store)
run-create-IsValid_example =
    run-create-IsValid instance_id (saves_token (token_named hash_a none) ∷ sweeps noon ∷ [])

-- The code, saved and consumed.
abbrev code_store : MemoryStore
code_store = record empty_store { auth_codes = (hash_a, code) ∷ [] }

test_consumed :
    consume_auth_code hash_a morning (some 1) none code_store ≡ (ok (some code), empty_store)
unfolding consume_auth_code consume_found ensure_open remove text_lt lex_lt assert_store_subject
    identity_subject assert_sha256_hex is_sha256_hex assert_utc_iso_timestamp is_utc_iso
    matches_shape trim drop_spaces all any same_codes get put
test_consumed = refl

consume_sound_example :
    (get hash_a code_store.auth_codes ≡ some code)
    × (text_lt morning noon ≡ true)
    × (true ≡ true)
    × (true ≡ true)
    × (empty_store ≡ record code_store { auth_codes = remove hash_a code_store.auth_codes })
consume_sound_example =
    consume_sound hash_a morning (some 1) none code_store empty_store code test_consumed

code_never_reused_example :
    (consume_auth_code hash_a morning
      (some 1)
      none
      (run (sweeps noon ∷ rotates_id other_id ∷ []) empty_store)).0
    ≢ ok (some code)
code_never_reused_example =
    code_never_reused hash_a morning morning (some 1) (some 1) none none code code code_store
      empty_store (sweeps noon ∷ rotates_id other_id ∷ []) test_consumed (tt, (tt, tt))

-- An approval, stored once.
abbrev approved_store : MemoryStore
approved_store = record empty_store {
  auth_codes = (hash_a, code) ∷ [];
  consent_jtis = (jti, noon) ∷ [];
}

test_approved :
    commit_consent_approval instance_id jti noon code empty_store ≡ (ok stored, approved_store)
unfolding commit_consent_approval commit ensure_open validate_auth_code assert_grant_generation
    grant_generation_for_write grant_generation_from_stored assert_store_instance_id
    is_store_instance_id assert_store_subject identity_subject assert_sha256_hex is_sha256_hex
    assert_utc_iso_timestamp is_utc_iso matches_shape trim drop_spaces all any same_codes get put
test_approved = refl

consent_never_reused_example :
    (commit_consent_approval other_id jti noon code
      (run (sweeps evening ∷ rotates_id other_id ∷ []) approved_store)).0
    ≢ ok stored
consent_never_reused_example =
    consent_never_reused instance_id other_id jti noon code code empty_store approved_store
      (sweeps evening ∷ rotates_id other_id ∷ []) test_approved

commit_atomic_example :
    let (r, s') = commit_consent_approval instance_id jti noon code empty_store in
    ((r ≡ ok stored)
      × (instance_id ≡ instance_id)
      × (get jti empty_store.consent_jtis ≡ none)
      × (swept none noon ≡ false)
      × (s' ≡ record empty_store {
        consent_jtis = put jti noon [];
        auth_codes = put hash_a (stamp_code code) [];
      }))
    ⊎ ((r ≢ ok stored) × (s' ≡ empty_store))
commit_atomic_example = commit_atomic instance_id jti noon code empty_store

-- A rotation of the first token.
abbrev second : RefreshTokenRecord
second = token_named hash_b (some hash_a)

abbrev first_row : StoredRefresh
first_row = stamp_token (token_named hash_a none)

abbrev family_row : StoredFamily
family_row = family_for first_row

test_checked :
    (given : RefreshTokenRecord) → given ≡ second → checked_next hash_a given morning ≡ ok second
unfolding checked_next validate_rotation checked_input normalize_refresh_token_write
    validate_refresh_token assert_refresh_resource assert_grant_generation
    grant_generation_for_write grant_generation_from_stored assert_store_subject identity_subject
    assert_sha256_hex is_sha256_hex assert_utc_iso_timestamp is_utc_iso matches_shape trim
    drop_spaces all any same_codes get put
test_checked given e = rw e refl

first-IsFound : IsFound hash_a (some 1) none saved_store first_row family_row
unfolding checked_input normalize_refresh_token_write validate_refresh_token assert_refresh_resource
    assert_grant_generation grant_generation_for_write grant_generation_from_stored
    assert_store_subject identity_subject assert_sha256_hex is_sha256_hex assert_utc_iso_timestamp
    is_utc_iso matches_shape trim drop_spaces all any same_codes get put
first-IsFound = record { row = refl; family = refl; subject = refl; bound = refl }

first-IsLive : IsLive second morning saved_store first_row
unfolding get text_lt lex_lt
first-IsLive = record { unused = refl; in_date = refl; family = refl; fresh = refl }

abbrev rotated_store : MemoryStore
rotated_store = rotated hash_a morning second saved_store first_row

rotate_succeeds_example :
    rotate_refresh_token hash_a second morning (some 1) none saved_store
    ≡ (ok (some first_row.token), rotated_store)
rotate_succeeds_example =
    rotate_succeeds hash_a morning second second (some 1) none saved_store first_row family_row
      (test_checked second refl) (saved-IsValid.filed hash_a first_row first-IsFound.row)
      first-IsFound first-IsLive refl

rotate_outcomes_example :
    IsOutcome hash_a morning second
      (some 1)
      none
      saved_store
      (rotate_refresh_token hash_a second morning (some 1) none saved_store)
rotate_outcomes_example =
    rotate_outcomes hash_a morning second second (some 1) none saved_store saved-IsValid refl
      (test_checked second refl)

-- A hash that is none is refused.
test_refused :
    rotate_refresh_token "short" second morning none none saved_store
    ≡ (err (store_input "tokenHash must be a SHA-256 hex digest"), saved_store)
unfolding rotate_refresh_token checked_next validate_rotation ensure_open checked_input
    normalize_refresh_token_write validate_refresh_token assert_refresh_resource
    assert_grant_generation grant_generation_for_write grant_generation_from_stored
    assert_store_subject identity_subject assert_sha256_hex is_sha256_hex assert_utc_iso_timestamp
    is_utc_iso matches_shape trim drop_spaces all any same_codes get put
test_refused = refl

rotate_atomic_example : saved_store ≡ saved_store
rotate_atomic_example =
    rotate_atomic "short" morning second none none saved_store saved_store
      (store_input "tokenHash must be a SHA-256 hex digest") saved-IsValid test_refused

-- The first token again, after its rotation.
abbrev second_row : StoredRefresh
second_row = stamp_token second

abbrev used_row : StoredRefresh
used_row = record first_row { consumed_at = some morning }

abbrev third : RefreshTokenRecord
third = token_named hash_c (some hash_a)

abbrev fourth : RefreshTokenRecord
fourth = token_named hash_c (some hash_b)

abbrev used_store : MemoryStore
used_store = record saved_store { refresh_tokens = (hash_a, used_row) ∷ (hash_b, second_row) ∷ [] }

test_rotated : rotated_store ≡ used_store
unfolding put checked_input normalize_refresh_token_write validate_refresh_token
    assert_refresh_resource assert_grant_generation grant_generation_for_write
    grant_generation_from_stored
test_rotated = refl

test_run_rotated :
    run
      (saves_token (token_named hash_a none) ∷ rotates hash_a second morning (some 1) none ∷ [])
      empty_store
    ≡ used_store
unfolding run step save_refresh_token insert_token rotate_refresh_token rotate_found rotate_live
    rotate_current checked_next validate_rotation ensure_open text_lt lex_lt checked_input
    normalize_refresh_token_write validate_refresh_token assert_refresh_resource
    assert_grant_generation grant_generation_for_write grant_generation_from_stored
    assert_store_subject identity_subject assert_sha256_hex is_sha256_hex assert_utc_iso_timestamp
    is_utc_iso matches_shape trim drop_spaces all any same_codes get put
test_run_rotated = refl

used-IsValid : IsValid used_store
used-IsValid = rw (← test_run_rotated) (
    run-create-IsValid instance_id
      (saves_token (token_named hash_a none) ∷ rotates hash_a second morning (some 1) none ∷ []))

test_third : checked_next hash_a third noon ≡ ok third
unfolding checked_next validate_rotation checked_input normalize_refresh_token_write
    validate_refresh_token assert_refresh_resource assert_grant_generation
    grant_generation_for_write grant_generation_from_stored assert_store_subject identity_subject
    assert_sha256_hex is_sha256_hex assert_utc_iso_timestamp is_utc_iso matches_shape trim
    drop_spaces all any same_codes get put
test_third = refl

used-IsFound : IsFound hash_a none none used_store used_row family_row
unfolding checked_input normalize_refresh_token_write validate_refresh_token assert_refresh_resource
    assert_grant_generation grant_generation_for_write grant_generation_from_stored
    assert_store_subject identity_subject assert_sha256_hex is_sha256_hex assert_utc_iso_timestamp
    is_utc_iso matches_shape trim drop_spaces all any same_codes get put
used-IsFound = record { row = refl; family = refl; subject = refl; bound = refl }

abbrev replayed_store : MemoryStore
replayed_store = (rotate_refresh_token hash_a third noon none none used_store).1

test_left : get hash_b (run (sweeps noon ∷ []) replayed_store).refresh_tokens ≡ some second_row
unfolding run step rotate_refresh_token rotate_found rotate_replayed revoke_refresh_token_family
    checked_next validate_rotation sweep_expired sweep family_valid drop_empty has_member retain
    values ensure_open text_lt lex_lt checked_input normalize_refresh_token_write
    validate_refresh_token assert_refresh_resource assert_grant_generation
    grant_generation_for_write grant_generation_from_stored assert_store_subject identity_subject
    assert_sha256_hex is_sha256_hex assert_utc_iso_timestamp is_utc_iso matches_shape trim
    drop_spaces all any same_codes get put
test_left = refl

replay_ends_family_example :
    ((rotate_refresh_token hash_a third noon none none used_store).0 ≡ ok none)
    × (gave
          (rotate_refresh_token hash_b fourth noon none none
            (run (sweeps noon ∷ []) replayed_store)).0
        ≡ false)
replay_ends_family_example =
    replay_ends_family hash_a noon third third none none used_store used_row family_row
      (sweeps noon ∷ []) hash_b noon fourth none none second_row used-IsValid refl test_third
      used-IsFound refl (tt, tt) test_left refl

-- The resource of the family, which the revocation expects.
abbrev bound_resource : Option String
bound_resource = some "https://mcp.example/mcp"

abbrev revoked_store : MemoryStore
revoked_store = (revoke_refresh_token_family "family" noon bound_resource used_store).1

test_revoked : (revoke_refresh_token_family "family" noon bound_resource used_store).0 ≡ ok tt
unfolding revoke_refresh_token_family ensure_open assert_refresh_resource assert_store_subject
    identity_subject assert_sha256_hex is_sha256_hex assert_utc_iso_timestamp is_utc_iso
    matches_shape trim drop_spaces all any same_codes get put
test_revoked = refl

test_still : get hash_b (run (sweeps noon ∷ []) revoked_store).refresh_tokens ≡ some second_row
unfolding run step revoke_refresh_token_family sweep_expired sweep family_valid drop_empty
    has_member retain values ensure_open text_lt lex_lt checked_input normalize_refresh_token_write
    validate_refresh_token assert_refresh_resource assert_grant_generation
    grant_generation_for_write grant_generation_from_stored assert_store_subject identity_subject
    assert_sha256_hex is_sha256_hex assert_utc_iso_timestamp is_utc_iso matches_shape trim
    drop_spaces all any same_codes get put
test_still = refl

fits_used : FitsFamily bound_resource (get "family" used_store.families)
unfolding get
fits_used = refl

revoked_stays_revoked_example :
    gave
      (rotate_refresh_token hash_b fourth noon none none (run (sweeps noon ∷ []) revoked_store)).0
    ≡ false
revoked_stays_revoked_example =
    revoked_stays_revoked "family" noon bound_resource used_store (sweeps noon ∷ []) hash_b noon
      fourth none none second_row used-IsValid fits_used test_revoked (tt, tt) test_still refl

-- A sweep while the successor is in date.
test_swept : (sweep_expired noon used_store).0 ≡ ok tt
unfolding sweep_expired ensure_open assert_store_subject identity_subject assert_sha256_hex
    is_sha256_hex assert_utc_iso_timestamp is_utc_iso matches_shape trim drop_spaces all any
    same_codes get put
test_swept = refl

test_dated : text_lt evening noon ≡ false
unfolding text_lt lex_lt
test_dated = refl

test_second : get hash_b used_store.refresh_tokens ≡ some second_row
unfolding get
test_second = refl

sweep_keeps_family_example :
    (get hash_a (sweep_expired noon used_store).1.refresh_tokens ≡ some used_row)
    × (get "family" (sweep_expired noon used_store).1.families ≡ get "family" used_store.families)
sweep_keeps_family_example =
    sweep_keeps_family noon hash_a hash_b used_row second_row used_store used-IsValid test_swept
      used-IsFound.row test_second refl test_dated

test_granted :
    (find_granted_scopes "alice" "client" noon (some 1) none used_store).0
    ≡ ok ("read" ∷ "write" ∷ [])
unfolding find_granted_scopes is_active collect_scopes merge_scopes includes values ensure_open
    text_lt lex_lt checked_input normalize_refresh_token_write validate_refresh_token
    assert_refresh_resource assert_grant_generation grant_generation_for_write
    grant_generation_from_stored assert_store_subject identity_subject assert_sha256_hex
    is_sha256_hex assert_utc_iso_timestamp is_utc_iso matches_shape trim drop_spaces all any
    same_codes get put
test_granted = refl

find_granted_scopes_exact_example :
    Distinct ("read" ∷ "write" ∷ [])
    × ((w : String)
        → (includes ("read" ∷ "write" ∷ []) w ≡ true) ↔ (
            (hash : String) × (t : StoredRefresh) × (get hash used_store.refresh_tokens ≡ some t)
            × IsGrant "alice" "client" noon (some 1) none used_store.families t
            × (includes t.scopes w ≡ true)))
find_granted_scopes_exact_example =
    find_granted_scopes_exact "alice" "client" noon (some 1) none used_store ("read" ∷ "write" ∷ [])
      used-IsValid test_granted
