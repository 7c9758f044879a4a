-- ===== src/Authorize/Tests.antt =====
-- A consent is prepared and approved, on a platform that answers fixed texts.
use mcp_sso.Common.{
  Option, ℕ, String, [], ◌∷◌, none, some, true, false, ◌≡◌, refl, ap, ◌⊎◌, any, all, includes,
  keep_if, trim, drop_spaces, same_codes, text_lt, lex_lt, has_prefix, utf8_length, leb,
  if◌then◌else◌, ◌==◌,
}
use mcp_sso.Errors.{Result, ok, err, oauth, OAuthError, with_redirect, call_port}
use mcp_sso.Subject.{identity_subject, is_machine_subject}
use mcp_sso.Dict.{get, put}
use mcp_sso.Store.Checks.{
  validate_auth_code, assert_store_subject, assert_sha256_hex, is_sha256_hex,
  assert_utc_iso_timestamp, is_utc_iso, matches_shape, assert_grant_generation,
  grant_generation_for_write, assert_store_instance_id, is_store_instance_id,
}
use mcp_sso.Store.Memory.State.{MemoryStore, create_memory_store, ensure_open}
use mcp_sso.Store.Memory.Codes.{get_store_instance_id, commit_consent_approval, commit}
use mcp_sso.Scopes.{
  text, stored_scopes, all_in, is_bounded_list, bounded_scopes, is_bounded_scope_token,
  is_scope_token, scope_string, sort_scopes, insert_sorted, join_scopes, normalize_scopes,
  normalize_once, normalize_items, scope_items, split_spaces, trim_text, trim_start, trim_end,
  assert_allowed_scopes_ceiling,
}
use mcp_sso.Clock.{finite_clock_snapshot, integer_clock_snapshot, numeric_date_iso, expires_at_iso}
use mcp_sso.Cimd.Json
use mcp_sso.Cimd.Json.{Members, member, own}
use mcp_sso.Cimd.Registration.{
  CimdRegistration, is_cimd_client_id, is_scheme_shaped, scheme_follows,
}
use mcp_sso.Consent.{
  JwtPlatform, ConsentRequestClaims, Consent, consent_payload, sign_consent_token, consent_claims,
  verify_consent_token,
}
use mcp_sso.Redirect.Entry.{
  Url, parse_redirect_entry, with_raw, parsed_url, with_url, with_form, raw_problem, url_problem,
  classify_path, is_canonical, is_loopback_host, ends_with_dot, has_bad_escape, has_control_escape,
  after_mark, until_slash, has_explicit_port, scheme_port, named_port, bracket_port, port_digits,
}
use mcp_sso.Redirect.Policy.{
  replace, assert_oauth_redirect_entry, assert_allowed_redirect_uri, oauth_entry, oauth_entries,
  global_match,
}
use mcp_sso.Token.Env.{required}
use mcp_sso.Authorize.Env.{
  AuthorizeConfig, AuthorizePlatform, stateless, is_stored, dcr_generation, new_grant_generation,
}
use mcp_sso.Authorize.Client.{
  cimd_generic_error, resolve_authorize_client, resolve_opaque_redirect, opaque_redirect_by,
  accumulation_allowed, assert_approve_cimd_gate, assert_current_consent_redirect,
  approve_origin_allowed, assert_approve_origin,
}
use mcp_sso.Authorize.Prepare.{
  AuthorizeRequestInput, PreparedConsent, prepare, resolve_request, check_subject, check_request,
  make_consent, store_instance_id, prior_grants, tag,
}
use mcp_sso.Authorize.Approve.{
  ApproveInput, ApproveResult, approve, check_consent, grant, approval_commit_now, commit_outcome,
  redirect_with_code, error_redirect, dedupe, dedupe_onto,
}
use mcp_sso.Authorize.Granting.{Granted, approve_sound}
use mcp_sso.Authorize.Checks.{IsCurrent}
use mcp_sso.Authorize.Preparing.{IsSound, prepare-IsSound}
use mcp_sso.Authorize.Plain.{fails_plain, is_plain}
use mcp_sso.Authorize.Redirecting.{IsDirected, error_redirect_sound}

abbrev hash : String
hash = "aaaaaaaaaaaaaaaaaaaaaaaaaaaaaaaaaaaaaaaaaaaaaaaaaaaaaaaaaaaaaaaa"

abbrev instance_id : String
instance_id = "AAAAAAAAAAAAAAAAAAAAAAAA"

abbrev callback : String
callback = "https://app.example/cb"

abbrev url : Url
url = record {
  protocol = "https:";
  hostname = "app.example";
  pathname = "/cb";
  search = "";
  origin = "https://app.example";
  href = callback;
}

abbrev settings : AuthorizeConfig
settings = record {
  issuer = "https://auth.example";
  resource = "https://mcp.example/mcp";
  scope_catalog = "read" ∷ "write" ∷ [];
  default_scopes = "read" ∷ [];
  allowed_origins = [];
  redirect_allowlist = callback ∷ [];
  redirect_allowlist_mode = replace;
  dcr = stateless;
  cimd_enabled = false;
  authorization_code_ttl_seconds = 600;
  consent_token_ttl_seconds = 300;
}

abbrev claims : ConsentRequestClaims
claims = record {
  client_id = "client";
  redirect_uri = callback;
  resource = "https://mcp.example/mcp";
  scopes = "read" ∷ [];
  code_challenge = "challenge";
  state = some "xyz";
  subject = "alice";
  allowed_scopes = some ("read" ∷ []);
  store_instance_id = some instance_id;
  cimd_verified = false;
}

abbrev payload : Members
payload = member "exp" (Json.number 300) (consent_payload claims "alice" "jti")

abbrev jwt : JwtPlatform
jwt = record {
  sign = λ ms issued expires. "token";
  verify = λ token now. if token == "token" then some payload else none;
  iso = λ ms. if leb ms 2000 then "2026-07-03T08:00:00.000Z" else "2026-07-03T12:00:00.000Z";
}

abbrev platform : AuthorizePlatform
platform = record {
  jwt = jwt;
  sha256_hex = λ code. hash;
  parse_url = λ uri. some url;
  origin_of = λ uri. uri;
  with_params = λ uri params. uri;
  resolve = none;
}

abbrev request : AuthorizeRequestInput
request = record {
  client_id = some "client";
  redirect_uri = some callback;
  response_type = some "code";
  code_challenge = some "challenge";
  code_challenge_method = some "S256";
  resource = none;
  scope = text "write read";
  state = some "xyz";
  subject = some "alice";
  allowed_scopes = some ("read" ∷ []);
  registration = none;
}

abbrev store : MemoryStore
store = create_memory_store instance_id

abbrev prepared_consent : PreparedConsent
prepared_consent = record { consent_token = "token"; claims = claims; prior_scopes = [] }

program : Unit {0}
unfolding any all includes keep_if trim drop_spaces same_codes text_lt lex_lt has_prefix utf8_length
    call_port identity_subject is_machine_subject get put validate_auth_code assert_store_subject
    assert_sha256_hex is_sha256_hex assert_utc_iso_timestamp is_utc_iso matches_shape
    assert_grant_generation grant_generation_for_write assert_store_instance_id is_store_instance_id
    ensure_open get_store_instance_id commit_consent_approval commit stored_scopes all_in
    is_bounded_list bounded_scopes is_bounded_scope_token is_scope_token scope_string sort_scopes
    insert_sorted join_scopes normalize_scopes normalize_once normalize_items scope_items
    split_spaces trim_text trim_start trim_end assert_allowed_scopes_ceiling finite_clock_snapshot
    integer_clock_snapshot numeric_date_iso expires_at_iso own is_cimd_client_id is_scheme_shaped
    scheme_follows consent_payload sign_consent_token consent_claims verify_consent_token
    parse_redirect_entry with_raw parsed_url with_url with_form raw_problem url_problem
    classify_path is_canonical is_loopback_host ends_with_dot has_bad_escape has_control_escape
    after_mark until_slash has_explicit_port scheme_port named_port bracket_port port_digits
    assert_oauth_redirect_entry assert_allowed_redirect_uri oauth_entry oauth_entries global_match
    required is_stored dcr_generation new_grant_generation resolve_authorize_client
    resolve_opaque_redirect opaque_redirect_by accumulation_allowed assert_approve_cimd_gate
    assert_current_consent_redirect approve_origin_allowed assert_approve_origin prepare
    resolve_request check_subject check_request make_consent store_instance_id prior_grants approve
    check_consent grant approval_commit_now commit_outcome redirect_with_code error_redirect dedupe
    dedupe_onto
program = tt

prepares :
    prepare platform settings request (some 1000) (some 1000) "jti" store
    ≡ (ok prepared_consent, store)
unfolding program
prepares = refl

prepare-IsSound_example :
    IsSound platform settings request claims store
    × (sign_consent_token platform.jwt claims (some 1000) 300 "jti" ≡ ok "token")
    × (store ≡ store)
prepare-IsSound_example =
    prepare-IsSound platform settings request (some 1000) (some 1000) "jti" prepared_consent store
      store prepares

abbrev answer : ApproveInput
answer = record {
  consent_token = some "token";
  approved = true;
  site = some "https://auth.example";
}

abbrev approved : Result ApproveResult × MemoryStore
approved = approve platform settings answer (some 1000) (some 1500) "ac_1" store

abbrev redirected : ApproveResult
redirected = record { redirect_to = callback; code = some "ac_1"; state = some "xyz" }

approves : approved ≡ (ok redirected, approved.1)
unfolding program
approves = refl

approve_sound_example :
    (now : ℕ) × (token : String) × (consent : Consent) × (some 1000 ≡ some now)
    × (answer.consent_token ≡ some token)
    × (verify_consent_token platform.jwt token now ≡ ok consent)
    × (approve_origin_allowed platform settings answer.site ≡ true)
    × IsCurrent platform settings consent store
    × (((answer.approved ≡ false) × (redirected.code ≡ none) × (approved.1 ≡ store))
        ⊎ ((answer.approved ≡ true)
            × Granted platform settings consent now (some 1500) "ac_1" redirected store approved.1))
approve_sound_example =
    approve_sound platform settings answer (some 1000) (some 1500) "ac_1" redirected store
      approved.1 approves

abbrev implicit : AuthorizeRequestInput
implicit = record request { response_type = some "token" }

abbrev refusal : OAuthError
refusal = record {
  code = "unsupported_response_type";
  message = "Only response_type=code is supported";
  status = 400;
  redirect = some (record { redirect_uri = callback; state = some "xyz" });
}

abbrev refusing : String → String → Result CimdRegistration
refusing id uri = err cimd_generic_error

-- The same platform with a resolver that refuses every client.
abbrev resolving : AuthorizePlatform
resolving = record platform { resolve = some refusing }

refuses :
    prepare resolving settings implicit (some 1000) (some 1000) "jti" store
    ≡ (err (oauth refusal), store)
unfolding program with_redirect tag
refuses = refl

abbrev or_refusing :
    Option (String → String → Result CimdRegistration) → String → String → Result CimdRegistration
or_refusing none = refusing
or_refusing (some resolve) = resolve

refusing_plain :
    (resolve : String → String → Result CimdRegistration) (id uri : String)
    → resolving.resolve ≡ some resolve
    → fails_plain (resolve id uri) ≡ true
unfolding fails_plain is_plain
refusing_plain resolve id uri h = let p : refusing ≡ resolve = ap or_refusing h in rw (← p) refl

error_redirect_sound_example : IsDirected resolving settings implicit refusal
error_redirect_sound_example =
    error_redirect_sound resolving settings implicit (some 1000) (some 1000) "jti" refusal store
      store refusing_plain refuses
