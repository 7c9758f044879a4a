-- ===== src/Token/Tests.antt =====
-- token.ts: a code is exchanged, on a platform that answers fixed texts.
use mcp_sso.Common.{
  String, [], ◌∷◌, none, some, false, ◌≡◌, refl, Within, any, all, includes, trim, drop_spaces,
  same_codes, text_lt, lex_lt, has_prefix, utf8_length,
}
use mcp_sso.Errors.{Result, ok, call_port}
use mcp_sso.Subject.{identity_subject, is_machine_subject}
use mcp_sso.Dict.{get, put, remove}
use mcp_sso.Store.{AuthCodeRecord, number}
use mcp_sso.Store.Checks.{
  normalize_refresh_token_write, validate_refresh_token, assert_store_subject, assert_sha256_hex,
  is_sha256_hex, assert_utc_iso_timestamp, is_utc_iso, matches_shape, assert_refresh_resource,
  assert_grant_generation, grant_generation_for_write, grant_generation_from_stored,
}
use mcp_sso.Store.Memory.State.{MemoryStore, create_memory_store, ensure_open}
use mcp_sso.Store.Memory.Codes.{consume_auth_code, consume_found}
use mcp_sso.Store.Memory.Tokens.{save_refresh_token, insert_token, checked_input}
use mcp_sso.Scopes.{
  stored_scopes, all_in, is_bounded_list, bounded_scopes, is_bounded_scope_token, is_scope_token,
  access_scope_string, scope_string, sort_scopes, insert_sorted, join_scopes,
}
use mcp_sso.Redirect.Entry.{
  Url, parse_redirect_entry, with_raw, parsed_url, with_url, with_form, raw_problem, url_problem,
  classify_path, is_canonical, is_loopback_host, ends_with_dot, has_bad_escape, has_control_escape,
  after_mark, until_slash, has_explicit_port, scheme_port, named_port, bracket_port, port_digits,
}
use mcp_sso.Redirect.Policy.{assert_oauth_redirect_entry, oauth_entry}
use mcp_sso.Token.Env.{
  Platform, BridgeConfig, stored_dcr, expected_generation, required, parse_refresh_family_id,
  split_dots, is_family_id, generate_refresh_token, verify_pkce_s256, snapshot_auth_code,
  valid_auth_code_snapshot, sign_access_token,
}
use mcp_sso.Token.Grants.{
  AuthorizationCodeGrantInput, UserTokenResponse, exchange_authorization_code, consume_valid_code,
  check_code, issue_tokens, token_response,
}
use mcp_sso.Token.Code.{Redeems, exchange_sound}

abbrev hash : String
hash = "aaaaaaaaaaaaaaaaaaaaaaaaaaaaaaaaaaaaaaaaaaaaaaaaaaaaaaaaaaaaaaaa"

abbrev challenge : String
challenge = "ccccccccccccccccccccccccccccccccccccccccccc"

abbrev callback : String
callback = "https://app.example/cb"

abbrev url : Url
url = record {
  protocol = "https:";
  hostname = "app.example";
  pathname = "/cb";
  search = "";
  origin = "https://app.example";
  href = callback;
}

abbrev platform : Platform
platform = record {
  sha256_hex = λ text. hash;
  pkce_challenge = λ verifier. challenge;
  sign = λ subject client_id scope now. ok "jwt";
  iso = λ ms. "2026-07-03T08:00:00.000Z";
  parse_url = λ text. some url;
}

abbrev settings : BridgeConfig
settings = record {
  resource = "https://mcp.example/mcp";
  scope_catalog = "read" ∷ "write" ∷ [];
  dcr_mode = stored_dcr;
  access_token_ttl_seconds = 900;
  refresh_token_ttl_seconds = 86400;
}

abbrev code : AuthCodeRecord
code = record {
  code_hash = hash;
  client_id = "client";
  subject = "alice";
  redirect_uri = callback;
  resource = "https://mcp.example/mcp";
  scopes = "write" ∷ "read" ∷ [];
  code_challenge = challenge;
  code_challenge_method = "S256";
  expires_at = "2026-07-03T12:00:00.000Z";
  grant_generation = number 1;
}

abbrev input : AuthorizationCodeGrantInput
input = record {
  grant_type = some "authorization_code";
  code = some "ac_1";
  redirect_uri = some callback;
  client_id = some "client";
  code_verifier = some challenge;
}

abbrev store : MemoryStore
store = record (create_memory_store "AAAAAAAAAAAAAAAAAAAAAAAA") { auth_codes = (hash, code) ∷ [] }

abbrev response : UserTokenResponse
response = record {
  access_token = "jwt";
  expires_in = 900;
  refresh_token = "rt.ffffffffffffffffffffffff.secret";
  scope = "read write";
}

abbrev exchanged : Result UserTokenResponse × MemoryStore
exchanged =
    exchange_authorization_code platform settings input "ffffffffffffffffffffffff" "secret" 0 store

test_exchanged : exchanged ≡ (ok response, exchanged.1)
unfolding exchange_authorization_code consume_valid_code check_code issue_tokens token_response
    expected_generation required parse_refresh_family_id split_dots is_family_id
    generate_refresh_token verify_pkce_s256 snapshot_auth_code valid_auth_code_snapshot
    sign_access_token call_port identity_subject is_machine_subject get put remove consume_auth_code
    consume_found ensure_open save_refresh_token insert_token checked_input
    normalize_refresh_token_write validate_refresh_token assert_store_subject assert_sha256_hex
    is_sha256_hex assert_utc_iso_timestamp is_utc_iso matches_shape assert_refresh_resource
    assert_grant_generation grant_generation_for_write grant_generation_from_stored stored_scopes
    all_in is_bounded_list bounded_scopes is_bounded_scope_token is_scope_token access_scope_string
    scope_string sort_scopes insert_sorted join_scopes parse_redirect_entry with_raw parsed_url
    with_url with_form raw_problem url_problem classify_path is_canonical is_loopback_host
    ends_with_dot has_bad_escape has_control_escape after_mark until_slash has_explicit_port
    scheme_port named_port bracket_port port_digits assert_oauth_redirect_entry oauth_entry any all
    includes trim drop_spaces same_codes text_lt lex_lt has_prefix utf8_length
test_exchanged = refl

exchange_sound_example :
    (code : String) × (c : AuthCodeRecord) × Redeems platform settings input 0 code store c
    × (is_machine_subject c.subject ≡ false)
    × Within settings.scope_catalog c.scopes
    × (get (platform.sha256_hex code) exchanged.1.auth_codes ≡ none)
exchange_sound_example =
    exchange_sound platform settings input 0 "ffffffffffffffffffffffff" "secret" store exchanged.1
      response test_exchanged
