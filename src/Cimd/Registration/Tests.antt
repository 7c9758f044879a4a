-- ===== src/Cimd/Registration/Tests.antt =====
-- A document with two redirect URIs, one of them loopback, and a URL parser that knows three texts.
use mcp_sso.Common.{
  String, [], ◌∷◌, Option, none, some, true, false, ◌≡◌, refl, ◌==◌, if◌then◌else◌, any, all,
  includes, has_prefix, utf8_length,
}
use mcp_sso.Errors.{ok}
use mcp_sso.Redirect.Entry.{
  entry, Url, RedirectEntry, parse_redirect_entry, with_raw, parsed_url, with_url, with_form,
  raw_problem, url_problem, classify_path, is_canonical, is_loopback_host, ends_with_dot,
  has_bad_escape, has_control_escape, after_mark, until_slash, has_explicit_port, scheme_port,
  named_port, bracket_port, port_digits,
}
use mcp_sso.Redirect.Policy.{oauth_entry, oauth_entries}
use mcp_sso.Redirect.Laws.{IsEntry}
use mcp_sso.Cimd.Json.{Json, text, array, object, member, no_members, text_items, items, own}
use mcp_sso.Cimd.Document.{
  CimdDocument, validate_cimd_document, validate_members, utf16_length, redirect_texts,
  assert_cimd_redirect_uri, application_type_of, select_client_auth_method, are_response_types,
  are_grant_types, is_public_jwks,
}
use mcp_sso.Cimd.Registration.{
  CimdRegistration, project_cimd_registration, claim_of, parse_cimd_registration_claim,
  cimd_redirect_matches, is_scheme_shaped, scheme_follows, is_cimd_client_id,
}
use mcp_sso.Cimd.Registration.Claim.{document_survives}
use mcp_sso.Cimd.Registration.Laws.{Fits, matches_sound, own_redirects_match}

abbrev plain : String
plain = "http://127.0.0.1/cb"

abbrev ported : String
ported = "http://127.0.0.1:8080/cb"

abbrev hosted : String
hosted = "https://app.example/cb"

abbrev url_of : (protocol hostname site : String) → String → Url
url_of protocol hostname site href = record {
  protocol = protocol;
  hostname = hostname;
  pathname = "/cb";
  search = "";
  origin = site;
  href = href;
}

abbrev parse_known : String → Option Url
parse_known s =
    if s == plain
    then some (url_of "http:" "127.0.0.1" "http://127.0.0.1" plain)
    else if s == ported
    then some (url_of "http:" "127.0.0.1" "http://127.0.0.1:8080" ported)
    else if s == hosted
    then some (url_of "https:" "app.example" "https://app.example" hosted)
    else none

abbrev id : String
id = "https://app.example/client.json"

abbrev body_json : Json
body_json = object (
    member "client_id" (text id) (
      member "client_name" (text "App") (
        member "redirect_uris" (array (text_items (hosted ∷ plain ∷ [])))
          (member "grant_types" (array (text_items ("authorization_code" ∷ []))) no_members))))

abbrev parse_json : String → Option Json
parse_json s = if s == "body" then some body_json else none

abbrev app_document : CimdDocument
app_document = record {
  client_id = id;
  client_name = "App";
  redirect_uris = hosted ∷ plain ∷ [];
  application_type = none;
  public_method = false;
}

abbrev registered : CimdRegistration
registered = record {
  client_id = id;
  client_name = "App";
  redirect_uris = hosted ∷ plain ∷ [];
  application_type = none;
}

program : Unit {0}
unfolding any all includes has_prefix utf8_length parse_redirect_entry with_raw parsed_url with_url
    with_form raw_problem url_problem classify_path is_canonical is_loopback_host ends_with_dot
    has_bad_escape has_control_escape after_mark until_slash has_explicit_port scheme_port
    named_port bracket_port port_digits oauth_entry oauth_entries text_items items own
    validate_cimd_document validate_members utf16_length redirect_texts assert_cimd_redirect_uri
    application_type_of select_client_auth_method are_response_types are_grant_types is_public_jwks
    project_cimd_registration claim_of parse_cimd_registration_claim cimd_redirect_matches
    is_scheme_shaped scheme_follows is_cimd_client_id
program = tt

validates : validate_cimd_document parse_known parse_json "body" id ≡ ok app_document
unfolding program
validates = refl

projects : project_cimd_registration parse_known app_document ≡ ok registered
unfolding program
projects = refl

any_port : cimd_redirect_matches parse_known ported registered ≡ true
unfolding program
any_port = refl

shapes :
    (is_cimd_client_id id ≡ true)
    × (is_scheme_shaped "web+foo://x" ≡ true)
    × (is_scheme_shaped "foo:/x" ≡ false)
unfolding program
shapes = (refl, refl, refl)

matches_sound_example :
    (e : RedirectEntry) × IsEntry parse_known false ported e
    × ((uri : String) × (listed : RedirectEntry) × (includes registered.redirect_uris uri ≡ true)
        × (parse_redirect_entry parse_known false uri ≡ entry listed)
        × Fits none e listed)
matches_sound_example = matches_sound parse_known ported registered any_port

document_survives_example :
    (r : CimdRegistration) × (project_cimd_registration parse_known app_document ≡ ok r)
    × (parse_cimd_registration_claim (some (claim_of r)) (some id) ≡ ok r)
    × (r.client_id ≡ id)
    × (r.redirect_uris ≡ app_document.redirect_uris)
document_survives_example =
    document_survives parse_known parse_json "body" id app_document validates

own_redirects_match_example : cimd_redirect_matches parse_known plain registered ≡ true
own_redirects_match_example =
    own_redirects_match parse_known parse_json "body" id plain app_document registered validates
      projects (unfold includes in refl)
