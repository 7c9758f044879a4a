-- ===== src/Redirect/Tests.antt =====
-- redirect-entry.ts and redirect.ts on a native client, with a URL parser that knows three texts.
use mcp_sso.Common.{
  String, [], ◌∷◌, ◌++◌, Option, none, some, true, false, ◌≡◌, refl, ◌==◌, if◌then◌else◌, any, all,
  includes, has_prefix, utf8_length,
}
use mcp_sso.Errors.{ok}
use mcp_sso.Redirect.Entry.{
  Url, RedirectEntry, exact_uri, entry, refused, parse_redirect_entry, with_raw, parsed_url,
  with_url, with_form, raw_problem, url_problem, classify_path, is_canonical, is_loopback_host,
  ends_with_dot, has_bad_escape, has_control_escape, after_mark, until_slash, has_explicit_port,
  scheme_port, named_port, bracket_port, port_digits,
}
use mcp_sso.Redirect.Policy.{
  ClientRegistration, native, extend, built_ins, oauth_entry, oauth_entries, client_policy,
  global_match, assert_redirect_allowed_for_client, assert_allowed_redirect_uri,
}
use mcp_sso.Redirect.Laws.{
  IsEntry, Allowed, Registered, parse_redirect_entry_sound, client_redirect_sound,
  allowed_redirect_uri_sound,
}

abbrev plain : String
plain = "http://127.0.0.1/cb"

abbrev ported : String
ported = "http://127.0.0.1:8080/cb"

abbrev hosted : String
hosted = "https://claude.ai/api/mcp/auth_callback"

abbrev url_of : (protocol hostname pathname site : String) → String → Url
url_of protocol hostname pathname site href = record {
  protocol = protocol;
  hostname = hostname;
  pathname = pathname;
  search = "";
  origin = site;
  href = href;
}

abbrev parse_known : String → Option Url
parse_known text =
    if text == plain
    then some (url_of "http:" "127.0.0.1" "/cb" "http://127.0.0.1" plain)
    else if text == ported
    then some (url_of "http:" "127.0.0.1" "/cb" "http://127.0.0.1:8080" ported)
    else if text == hosted
    then some (url_of "https:" "claude.ai" "/api/mcp/auth_callback" "https://claude.ai" hosted)
    else if text == "https://claude.ai"
    then some (url_of "https:" "claude.ai" "/" "https://claude.ai" "https://claude.ai/")
    else if text == "https://chatgpt.com"
    then some (url_of "https:" "chatgpt.com" "/" "https://chatgpt.com" "https://chatgpt.com/")
    else none

abbrev client : ClientRegistration
client = record { client_id = "app"; redirect_uris = plain ∷ []; application_type = native }

abbrev ported_entry : RedirectEntry
ported_entry = record {
  raw = ported;
  url = url_of "http:" "127.0.0.1" "/cb" "http://127.0.0.1:8080" ported;
  form = exact_uri;
  has_explicit_port = true;
}

test_ported : parse_redirect_entry parse_known false ported ≡ entry ported_entry
unfolding parse_redirect_entry with_raw parsed_url with_url with_form raw_problem url_problem
    classify_path is_canonical is_loopback_host ends_with_dot has_bad_escape has_control_escape
    after_mark until_slash has_explicit_port scheme_port named_port bracket_port port_digits any
    includes has_prefix utf8_length
test_ported = refl

test_query :
    parse_redirect_entry parse_known false "https://claude.ai/?x"
    ≡ refused "must not contain a query delimiter"
unfolding parse_redirect_entry with_raw parsed_url with_url with_form raw_problem url_problem
    classify_path is_canonical is_loopback_host ends_with_dot has_bad_escape has_control_escape
    after_mark until_slash has_explicit_port scheme_port named_port bracket_port port_digits any
    includes has_prefix utf8_length
test_query = refl

parse_redirect_entry_sound_example : IsEntry parse_known false ported ported_entry
parse_redirect_entry_sound_example =
    parse_redirect_entry_sound parse_known false ported ported_entry test_ported

test_native : assert_redirect_allowed_for_client parse_known ported client ≡ ok ported
unfolding assert_redirect_allowed_for_client oauth_entry oauth_entries client_policy all
    parse_redirect_entry with_raw parsed_url with_url with_form raw_problem url_problem
    classify_path is_canonical is_loopback_host ends_with_dot has_bad_escape has_control_escape
    after_mark until_slash has_explicit_port scheme_port named_port bracket_port port_digits any
    includes has_prefix utf8_length
test_native = refl

client_redirect_sound_example :
    (ported ≡ ported)
    × ((presented : RedirectEntry) × IsEntry parse_known false ported presented
        × Allowed parse_known native (plain ∷ []) presented)
client_redirect_sound_example = client_redirect_sound parse_known ported client ported test_native

test_hosted : assert_allowed_redirect_uri parse_known hosted [] extend ≡ ok hosted
unfolding assert_allowed_redirect_uri oauth_entry oauth_entries global_match parse_redirect_entry
    with_raw parsed_url with_url with_form raw_problem url_problem classify_path is_canonical
    is_loopback_host ends_with_dot has_bad_escape has_control_escape after_mark until_slash
    has_explicit_port scheme_port named_port bracket_port port_digits any includes has_prefix
    utf8_length
test_hosted = refl

allowed_redirect_uri_sound_example :
    (hosted ≡ hosted)
    × ((presented : RedirectEntry) × IsEntry parse_known false hosted presented
        × Registered parse_known true (built_ins extend ++ []) (λ e. global_match e presented))
allowed_redirect_uri_sound_example =
    allowed_redirect_uri_sound parse_known hosted [] extend hosted test_hosted
