-- ===== src/Redirect/Policy.antt =====
-- redirect.ts and the matcher of cimd/registration.ts: which redirect URI a client may use.
use mcp_sso.Common.{
  String, List, [], ◌∷◌, ◌++◌, Option, Bool, true, false, not, ◌&&◌, ◌||◌, ◌==◌, leb, ltb, length,
  all, any, if◌then◌else◌,
}
use mcp_sso.Errors.{Thrown, Result, ok, err, oauth_error, require, ◌>>=◌, ◌>>◌}
use mcp_sso.Redirect.Entry.{
  Url, RedirectEntry, origin, exact_uri, Parsed, refused, entry, is_loopback_redirect,
  parse_redirect_entry,
}

abbrev pub default_allowed_redirect_origins : List String
default_allowed_redirect_origins = "https://claude.ai" ∷ "https://chatgpt.com" ∷ []

pub data RedirectAllowlistMode : Type 0 where
  extend replace : RedirectAllowlistMode

pub data ApplicationType : Type 0 where
  native web machine : ApplicationType

-- What the policies read of a client's registration.
pub record ClientRegistration : Type 0 where
  pub client_id : String
  pub redirect_uris : List String
  pub application_type : ApplicationType

abbrev pub invalid_redirect : String → Thrown
invalid_redirect reason = oauth_error "invalid_redirect_uri" reason 400

abbrev as_oauth : Parsed → Result RedirectEntry
as_oauth (refused reason) = err (invalid_redirect reason)
as_oauth (entry e) = ok e

unfoldable pub global_match : RedirectEntry → RedirectEntry → Bool
global_match e presented = elim e.form [
  | exact_uri ↦ e.raw == presented.raw
  | origin ↦
      (is_loopback_redirect e
        && not e.has_explicit_port
        && e.url.protocol == presented.url.protocol
        && e.url.hostname == presented.url.hostname)
      || e.url.origin == presented.url.origin
]

abbrev pub is_native_entry : RedirectEntry → Bool
is_native_entry e =
    is_loopback_redirect e && (e.url.protocol == "http:" || e.url.protocol == "https:")

abbrev pub is_https_entry : RedirectEntry → Bool
is_https_entry e = e.url.protocol == "https:"

abbrev pub loopback_any_port_match : RedirectEntry → RedirectEntry → Bool
loopback_any_port_match registered presented =
    registered.url.protocol == "http:"
    && presented.url.protocol == "http:"
    && registered.url.hostname == presented.url.hostname
    && registered.url.pathname == presented.url.pathname

abbrev pub same_raw : RedirectEntry → RedirectEntry → Bool
same_raw presented registered = registered.raw == presented.raw

abbrev pub native_match : RedirectEntry → RedirectEntry → Bool
native_match presented registered =
    registered.raw == presented.raw || loopback_any_port_match registered presented

unfoldable pub web_allowed : RedirectEntry → List RedirectEntry → Bool
unfolding all any
web_allowed presented registered =
    is_https_entry presented && all is_https_entry registered && any (same_raw presented) registered

-- The part of `assertRedirectAllowedForClient` behind the parsing.
unfoldable pub client_policy : ApplicationType → RedirectEntry → List RedirectEntry → Result String
unfolding web_allowed all any
client_policy machine presented registered =
    err (oauth_error "invalid_client" "Machine clients cannot use the authorization-code flow" 401)
client_policy web presented registered =
    if web_allowed presented registered
    then ok presented.raw
    else err (invalid_redirect "redirect_uri is not registered for this web client")
client_policy native presented registered =
    if not (is_native_entry presented && all is_native_entry registered)
    then err (invalid_redirect "native redirect_uri must be loopback")
    else if not (any (native_match presented) registered)
    then err (invalid_redirect "redirect_uri is not registered for this native client")
    else ok presented.raw

abbrev is_machine : ApplicationType → Bool
is_machine machine = true
is_machine _ = false

abbrev pub built_ins : RedirectAllowlistMode → List String
built_ins extend = default_allowed_redirect_origins
built_ins replace = []

module _ (parse_url : String → Option Url) where
  unfoldable pub oauth_entry : Bool → String → Result RedirectEntry
  oauth_entry omitted value = as_oauth (parse_redirect_entry parse_url omitted value)

  -- `entries.map((e) => oauthEntry(e, omitted))`, which throws at the first bad one.
  unfoldable pub oauth_entries : Bool → List String → Result (List RedirectEntry)
  oauth_entries omitted [] = ok []
  oauth_entries omitted (v ∷ vs) = do
    e ← oauth_entry omitted v
    es ← oauth_entries omitted vs
    ok (e ∷ es)

  unfoldable pub assert_allowed_redirect_uri :
      String → List String → RedirectAllowlistMode → Result String
  unfolding any global_match
  assert_allowed_redirect_uri value allowlist mode = do
    presented ← oauth_entry false value
    entries ← oauth_entries true (built_ins mode ++ allowlist)
    require (any (λ e. global_match e presented) entries)
        (invalid_redirect "redirect_uri is not allowed")
    ok presented.raw

  unfoldable pub assert_redirect_allowed_for_client : String → ClientRegistration → Result String
  unfolding client_policy
  assert_redirect_allowed_for_client redirect_uri client = do
    require (not (is_machine client.application_type))
        (oauth_error "invalid_client" "Machine clients cannot use the authorization-code flow" 401)
    presented ← oauth_entry false redirect_uri
    require (ltb 0 (length client.redirect_uris) && leb (length client.redirect_uris) 16)
        (invalid_redirect "stored redirect_uris must contain 1..16 entries")
    registered ← oauth_entries false client.redirect_uris
    client_policy client.application_type presented registered

  abbrev raw_of : RedirectEntry → Result String
  raw_of e = ok e.raw

  unfoldable pub assert_oauth_redirect_entry : String → Result String
  assert_oauth_redirect_entry value = oauth_entry false value >>= raw_of

  abbrev fits_type : ApplicationType → RedirectEntry → Result String
  fits_type web e = do
    require (is_https_entry e) (invalid_redirect "must use https for a web client")
    ok e.raw
  fits_type _ e = do
    require (is_native_entry e) (invalid_redirect "must be loopback for a native client")
    ok e.raw

  unfoldable pub assert_registration_redirect_policy : String → ApplicationType → Result String
  assert_registration_redirect_policy value application_type =
      oauth_entry false value >>= fits_type application_type
