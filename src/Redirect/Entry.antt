-- ===== src/Redirect/Entry.antt =====
-- redirect-entry.ts: the one grammar of a redirect entry.
-- A refusal keeps the reason; the message that quotes the entry is not built.
use mcp_sso.Common.{
  ℕ, String, List, [], ◌∷◌, Option, none, some, Bool, true, false, not, ◌&&◌, ◌||◌, ◌==◌, codes,
  leb, nat_eq, between, is_digit, is_hex, is_space, any, length, has_prefix, utf8_length, includes,
  if◌then◌else◌,
}

-- `new URL(value)`: what the policies read of it.
pub record Url : Type 0 where
  pub protocol : String
  pub hostname : String
  pub pathname : String
  pub search : String
  pub origin : String
  pub href : String

pub data RedirectEntryForm : Type 0 where
  origin exact_uri : RedirectEntryForm

pub record RedirectEntry : Type 0 where
  pub raw : String
  pub url : Url
  pub form : RedirectEntryForm
  pub has_explicit_port : Bool

-- `RedirectEntryError`, or the entry.
pub data Parsed : Type 0 where
  refused : String → Parsed
  entry : RedirectEntry → Parsed

abbrev pub loopback_hosts : List String
loopback_hosts = "localhost" ∷ "127.0.0.1" ∷ "[::1]" ∷ []

abbrev pub max_entry_bytes : ℕ
max_entry_bytes = 2048

unfoldable pub is_loopback_host : String → Bool
unfolding includes
is_loopback_host host = includes loopback_hosts host

abbrev pub is_loopback_redirect : RedirectEntry → Bool
is_loopback_redirect e = is_loopback_host e.url.hostname

abbrev pub is_control : ℕ → Bool
is_control c = between 0 0x1f c || nat_eq c 0x7f

-- `value.includes(c)`
abbrev pub has_code : ℕ → List ℕ → Bool
has_code c cs = any (nat_eq c) cs

abbrev pub hex_pair : List ℕ → Bool
hex_pair (a ∷ b ∷ cs) = is_hex a && is_hex b
hex_pair _ = false

-- /%(?![0-9a-f]{2})/i
unfoldable pub has_bad_escape : List ℕ → Bool
has_bad_escape [] = false
has_bad_escape (c ∷ cs) = (nat_eq c b'%' && not (hex_pair cs)) || has_bad_escape cs

abbrev pub control_pair : List ℕ → Bool
control_pair (a ∷ b ∷ cs) =
    ((nat_eq a b'0' || nat_eq a b'1') && is_hex b)
    || (nat_eq a b'7' && (nat_eq b b'f' || nat_eq b b'F'))
control_pair _ = false

-- /%(?:0[0-9a-f]|1[0-9a-f]|7f)/i
unfoldable pub has_control_escape : List ℕ → Bool
has_control_escape [] = false
has_control_escape (c ∷ cs) = (nat_eq c b'%' && control_pair cs) || has_control_escape cs

-- What follows the first "://".
unfoldable pub after_mark : List ℕ → Option (List ℕ)
unfolding has_prefix
after_mark [] = none
after_mark (c ∷ cs) =
    let rest = after_mark cs in
    if has_prefix (c ∷ cs) (codes "://") then some (drop_two cs) else rest
  where
    drop_two : List ℕ → List ℕ
    drop_two (a ∷ b ∷ ds) = ds
    drop_two ds = []

-- What stands before the first slash.
unfoldable pub until_slash : List ℕ → List ℕ
until_slash [] = []
until_slash (c ∷ cs) = let rest = until_slash cs in if nat_eq c b'/' then [] else c ∷ rest

abbrev pub authority : Option (List ℕ) → List ℕ
authority none = []
authority (some cs) = until_slash cs

abbrev pub is_absolute : List ℕ → Bool
is_absolute cs = not (has_prefix cs (codes "://")) && found (after_mark cs)
  where
    found : Option (List ℕ) → Bool
    found none = false
    found (some ds) = true

-- `pathname.split("/").some((segment) => segment.length > 0)`
abbrev pub has_segment : List ℕ → Bool
has_segment cs = any (λ c. not (nat_eq c b'/')) cs

unfoldable pub classify_path : Url → Option RedirectEntryForm
unfolding any
classify_path url =
    if url.pathname == "/"
    then some origin
    else if has_segment (codes url.pathname)
    then some exact_uri
    else none

-- /^[a-z][a-z0-9+.-]*:\/\/(?:\[[^\]]*\]|[^\s:/?#]+):\d+(?=\/|$)/iu, from the port on.

unfoldable pub port_digits : Bool → List ℕ → Bool
port_digits seen [] = seen
port_digits seen (c ∷ cs) =
    let rest = port_digits true cs in if is_digit c then rest else seen && nat_eq c b'/'

abbrev at_port : List ℕ → Bool
at_port [] = false
at_port (c ∷ cs) = nat_eq c b':' && port_digits false cs

abbrev is_host_code : ℕ → Bool
is_host_code c =
    not (is_space c || nat_eq c b':' || nat_eq c b'/' || nat_eq c b'?' || nat_eq c b'#')

-- A host name of at least one character, then the port.
unfoldable pub named_port : Bool → List ℕ → Bool
unfolding port_digits
named_port seen [] = false
named_port seen (c ∷ cs) =
    let rest = named_port true cs in if is_host_code c then rest else seen && at_port (c ∷ cs)

-- A bracketed host, behind its opening bracket.
unfoldable pub bracket_port : List ℕ → Bool
unfolding port_digits
bracket_port [] = false
bracket_port (c ∷ cs) = let rest = bracket_port cs in if nat_eq c b']' then at_port cs else rest

abbrev host_port : List ℕ → Bool
host_port [] = false
host_port (c ∷ cs) = (nat_eq c b'[' && bracket_port cs) || named_port false (c ∷ cs)

abbrev pub is_alpha : ℕ → Bool
is_alpha c = between b'a' b'z' c || between b'A' b'Z' c

abbrev pub is_scheme_code : ℕ → Bool
is_scheme_code c = is_alpha c || is_digit c || nat_eq c b'+' || nat_eq c b'.' || nat_eq c b'-'

abbrev past_mark : List ℕ → List ℕ
past_mark (a ∷ b ∷ c ∷ cs) = cs
past_mark cs = []

unfoldable pub scheme_port : List ℕ → Bool
unfolding named_port bracket_port has_prefix
scheme_port [] = false
scheme_port (c ∷ cs) =
    let rest = scheme_port cs in
    if has_prefix (c ∷ cs) (codes "://")
    then host_port (past_mark (c ∷ cs))
    else is_scheme_code c && rest

unfoldable pub has_explicit_port : List ℕ → Bool
unfolding scheme_port
has_explicit_port [] = false
has_explicit_port (c ∷ cs) = is_alpha c && scheme_port cs

-- The refusals that read the raw text alone, in the source's order.
unfoldable pub raw_problem : List ℕ → Option String
unfolding utf8_length any has_bad_escape has_control_escape after_mark until_slash has_prefix
raw_problem cs =
    if not (leb (utf8_length cs) max_entry_bytes)
    then some "must not exceed 2048 UTF-8 bytes"
    else if nat_eq (length cs) 0
    then some "must not be empty"
    else if any is_space cs
    then some "must not contain whitespace"
    else if any is_control cs
    then some "must not contain control characters"
    else if has_code b'*' cs
    then some "must not contain '*'"
    else if has_code 0x5c cs
    then some "must not contain backslashes"
    else if has_code b'?' cs
    then some "must not contain a query delimiter"
    else if has_code b'#' cs
    then some "must not contain a fragment delimiter"
    else if has_bad_escape cs
    then some "must not contain a malformed percent escape"
    else if has_control_escape cs
    then some "must not percent-encode a C0 control or DEL byte"
    else if not (is_absolute cs)
    then some "must be an absolute http(s) URL"
    else if has_code b'@' (authority (after_mark cs))
    then some "must not contain userinfo"
    else none

abbrev is_web_scheme : String → Bool
is_web_scheme protocol = protocol == "https:" || protocol == "http:"

-- `hostname.endsWith(".")`
unfoldable pub ends_with_dot : List ℕ → Bool
ends_with_dot [] = false
ends_with_dot (c ∷ []) = nat_eq c b'.'
ends_with_dot (c ∷ d ∷ cs) = ends_with_dot (d ∷ cs)

unfoldable pub url_problem : Url → Option String
unfolding is_loopback_host ends_with_dot
url_problem url =
    if not (is_web_scheme url.protocol)
    then some "scheme must be https or loopback http"
    else if url.protocol == "http:" && not (is_loopback_host url.hostname)
    then some "http is allowed only on localhost, 127.0.0.1, or [::1]"
    else if ends_with_dot (codes url.hostname)
    then some "host must not have a trailing dot"
    else none

abbrev is_origin : RedirectEntryForm → Bool
is_origin origin = true
is_origin exact_uri = false

-- The canonical spelling, or for an allowlist entry the one without the root slash.
unfoldable pub is_canonical : Bool → String → Url → RedirectEntryForm → Bool
is_canonical omitted value url form =
    value == url.href
    || (omitted && is_origin form && Prim.Native.String.◌++◌ value "/" == url.href)

unfoldable pub with_form : Bool → String → Url → Option RedirectEntryForm → Parsed
unfolding has_explicit_port is_canonical
with_form omitted value url none =
    refused "path must contain a non-empty segment or be the root path"
with_form omitted value url (some form) =
    if is_canonical omitted value url form
    then entry (record {
      raw = value;
      url = url;
      form = form;
      has_explicit_port = has_explicit_port (codes value);
    })
    else refused "must use canonical WHATWG spelling"

unfoldable pub with_url : Bool → String → Option String → Url → Parsed
unfolding classify_path with_form
with_url omitted value (some reason) url = refused reason
with_url omitted value none url = with_form omitted value url (classify_path url)

module _ (parse_url : String → Option Url) where
  unfoldable pub parsed_url : Bool → String → Option Url → Parsed
  unfolding url_problem with_url
  parsed_url omitted value none = refused "must be a parseable absolute URL"
  parsed_url omitted value (some url) = with_url omitted value (url_problem url) url

  unfoldable pub with_raw : Bool → String → Option String → Parsed
  unfolding parsed_url
  with_raw omitted value (some reason) = refused reason
  with_raw omitted value none = parsed_url omitted value (parse_url value)

  -- `parseRedirectEntry(value, { allowOmittedRootSlash: omitted })` on a string.
  unfoldable pub parse_redirect_entry : Bool → String → Parsed
  unfolding raw_problem with_raw
  parse_redirect_entry omitted value = with_raw omitted value (raw_problem (codes value))
