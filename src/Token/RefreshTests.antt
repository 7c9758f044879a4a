-- ===== src/Token/RefreshTests.antt =====
-- token.ts: a refresh by another client rotates the token, throws, and ends the family.
use mcp_sso.Common.{
  String, List, [], ◌∷◌, Option, none, some, false, ◌≡◌, refl, ◌==◌, if◌then◌else◌, leb, any, all,
  includes, trim, drop_spaces, same_codes, text_lt, lex_lt, has_prefix, utf8_length,
}
use mcp_sso.Errors.{Thrown, Result, ok, err, call_port, port_error}
use mcp_sso.Subject.{identity_subject, is_machine_subject}
use mcp_sso.Dict.{get, put, remove}
use mcp_sso.Store.{RefreshTokenRecord, SaveRefreshTokenInput, number}
use mcp_sso.Store.Checks.{
  normalize_refresh_token_write, validate_refresh_token, validate_rotation, assert_store_subject,
  assert_sha256_hex, is_sha256_hex, assert_utc_iso_timestamp, is_utc_iso, matches_shape,
  assert_refresh_resource, assert_grant_generation, grant_generation_for_write,
  grant_generation_from_stored,
}
use mcp_sso.Store.Memory.{Call, saves_token, run, step}
use mcp_sso.Store.Memory.State.{MemoryStore, StoredRefresh, create_memory_store, ensure_open}
use mcp_sso.Store.Memory.Tokens.{
  save_refresh_token, insert_token, checked_input, revoke_refresh_token_family,
}
use mcp_sso.Store.Memory.Rotation.{
  rotate_refresh_token, rotate_found, rotate_live, rotate_current, rotate_replayed, checked_next,
}
use mcp_sso.Store.Memory.Rotating.{gave}
use mcp_sso.Store.Memory.Keeps.{run-create-IsValid}
use mcp_sso.Token.Env.{
  Platform, BridgeConfig, stored_dcr, expected_generation, required, parse_refresh_family_id,
  split_dots, is_family_id, generate_refresh_token, snapshot_refresh_token, valid_refresh_snapshot,
}
use mcp_sso.Token.Grants.{
  RefreshGrantInput, UserTokenResponse, refresh, rotate_refresh_token_snapshot, answer_rotated,
  revoke_and_throw, check_rotated, next_token, invalid_grant,
}
use mcp_sso.Token.Refresh.{failed_refresh_ends_family}

abbrev hash_a : String
hash_a = "aaaaaaaaaaaaaaaaaaaaaaaaaaaaaaaaaaaaaaaaaaaaaaaaaaaaaaaaaaaaaaaa"

abbrev hash_b : String
hash_b = "bbbbbbbbbbbbbbbbbbbbbbbbbbbbbbbbbbbbbbbbbbbbbbbbbbbbbbbbbbbbbbbb"

abbrev family : String
family = "ffffffffffffffffffffffff"

abbrev presented : String
presented = "rt.ffffffffffffffffffffffff.old"

abbrev platform : Platform
platform = record {
  sha256_hex = λ text. if text == presented then hash_a else hash_b;
  pkce_challenge = λ verifier. verifier;
  sign = λ subject client_id scope now. ok "jwt";
  iso = λ ms. if leb ms 1000 then "2026-07-03T08:00:00.000Z" else "2026-07-03T12:00:00.000Z";
  parse_url = λ text. none;
}

abbrev settings : BridgeConfig
settings = record {
  resource = "https://mcp.example/mcp";
  scope_catalog = "read" ∷ [];
  dcr_mode = stored_dcr;
  access_token_ttl_seconds = 900;
  refresh_token_ttl_seconds = 86400;
}

abbrev first : SaveRefreshTokenInput
first = record {
  token_hash = hash_a;
  family_id = family;
  previous_token_hash = none;
  client_id = "client";
  subject = "alice";
  resource = some "https://mcp.example/mcp";
  scopes = "read" ∷ [];
  expires_at = "2026-07-03T12:00:00.000Z";
  grant_generation = number 1;
}

abbrev calls : List Call
calls = saves_token first ∷ []

abbrev store : MemoryStore
store = run calls (create_memory_store "AAAAAAAAAAAAAAAAAAAAAAAA")

abbrev input : RefreshGrantInput
input = record {
  grant_type = some "refresh_token";
  refresh_token = some presented;
  client_id = some "other";
}

abbrev next : SaveRefreshTokenInput
next = next_token platform settings input presented (generate_refresh_token family "new") family 0

abbrev rotation : Result (Option RefreshTokenRecord) × MemoryStore
rotation =
    rotate_refresh_token hash_a next (platform.iso 0) (expected_generation settings)
      (some settings.resource) store

abbrev refused : Result UserTokenResponse × MemoryStore
refused = refresh platform settings input "new" 0 store

abbrev refusal : Thrown
refusal = invalid_grant "Refresh token client binding is invalid"

abbrev given_of : Result (Option RefreshTokenRecord) → RefreshTokenRecord
given_of (ok (some t)) = t
given_of _ = first

abbrev row_of : Option StoredRefresh → StoredRefresh
row_of (some t) = t
row_of none = record { token = first; consumed_at = none }

abbrev handed_out : StoredRefresh
handed_out = row_of (get hash_b refused.1.refresh_tokens)

program : Unit {0}
unfolding any all includes trim drop_spaces same_codes text_lt lex_lt has_prefix utf8_length
    call_port port_error identity_subject is_machine_subject get put remove
    normalize_refresh_token_write validate_refresh_token validate_rotation assert_store_subject
    assert_sha256_hex is_sha256_hex assert_utc_iso_timestamp is_utc_iso matches_shape
    assert_refresh_resource assert_grant_generation grant_generation_for_write
    grant_generation_from_stored run step ensure_open save_refresh_token insert_token checked_input
    revoke_refresh_token_family rotate_refresh_token rotate_found rotate_live rotate_current
    rotate_replayed checked_next expected_generation required parse_refresh_family_id split_dots
    is_family_id generate_refresh_token snapshot_refresh_token valid_refresh_snapshot refresh
    rotate_refresh_token_snapshot answer_rotated revoke_and_throw check_rotated
program = tt

rotates_first : rotation ≡ (ok (some (given_of rotation.0)), rotation.1)
unfolding program
rotates_first = refl

refuses : refused ≡ (err refusal, refused.1)
unfolding program
refuses = refl

keeps_row : get hash_b refused.1.refresh_tokens ≡ some handed_out
unfolding program
keeps_row = refl

of_family : handed_out.family_id ≡ family
unfolding program
of_family = refl

parses : parse_refresh_family_id presented ≡ some family
unfolding program
parses = refl

requires : required input.refresh_token "refresh_token" ≡ ok presented
unfolding program
requires = refl

failed_refresh_ends_family_example :
    gave
      (rotate_refresh_token hash_b next "2026-07-03T09:00:00.000Z" none none (run [] refused.1)).0
    ≡ false
failed_refresh_ends_family_example =
    failed_refresh_ends_family platform settings input presented "new" family 0 store rotation.1
      refused.1 (given_of rotation.0) refusal [] hash_b "2026-07-03T09:00:00.000Z" next none none
      handed_out (run-create-IsValid "AAAAAAAAAAAAAAAAAAAAAAAA" calls) refl requires parses
      rotates_first refuses tt (unfold run in keeps_row) of_family
