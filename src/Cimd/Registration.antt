-- ===== src/Cimd/Registration.antt =====
-- cimd/registration.ts: the shape of a client id, the registration of a document, its claim in the flow
-- cookie, and the matcher of redirect URIs.
pub mod Claim
pub mod Laws
mod Tests
use mcp_sso.Common.{
  ℕ, String, List, [], ◌∷◌, Option, none, some, Bool, true, false, not, ◌&&◌, ◌||◌, ◌==◌, codes,
  length, any, all, has_prefix, if◌then◌else◌, ltb,
}
use mcp_sso.Errors.{Result, ok, err, plain, ◌>>=◌, ◌>>◌}
use mcp_sso.Redirect.Entry.{
  Url, RedirectEntry, is_loopback_redirect, is_loopback_host, is_alpha, is_scheme_code,
}
use mcp_sso.Redirect.Policy.{oauth_entry, oauth_entries}
use mcp_sso.Cimd.Json.{
  Json, text, array, object, Members, member, no_members, items, text_items, own,
}
use mcp_sso.Cimd.Document.{
  CimdApplicationType, native, web, CimdDocument, utf16_length, is_name, few_uris, as_text,
  as_array, application_type_of, redirect_texts,
}

pub record CimdRegistration : Type 0 where
  pub client_id : String
  pub client_name : String
  pub redirect_uris : List String
  pub application_type : Option CimdApplicationType

-- SCHEME_SHAPED, behind its first letter.
unfoldable pub scheme_follows : List ℕ → Bool
unfolding has_prefix
scheme_follows [] = false
scheme_follows (c ∷ cs) =
    let rest = scheme_follows cs in
    if has_prefix (c ∷ cs) (codes "://") then true else is_scheme_code c && rest

abbrev starts_scheme : List ℕ → Bool
starts_scheme [] = false
starts_scheme (c ∷ cs) = is_alpha c && scheme_follows cs

unfoldable pub is_scheme_shaped : String → Bool
unfolding scheme_follows
is_scheme_shaped client_id = starts_scheme (codes client_id)

unfoldable pub is_cimd_client_id : String → Bool
unfolding has_prefix
is_cimd_client_id client_id = has_prefix (codes client_id) (codes "https://")

-- The projection of a validated document, whose entries it checks again.
unfoldable pub project_cimd_registration :
    (parse_url : String → Option Url) → CimdDocument → Result CimdRegistration
unfolding redirect_texts items text_items
project_cimd_registration parse_url d =
    redirect_texts parse_url (items (text_items d.redirect_uris)) >>= λ uris. ok (record {
      client_id = d.client_id;
      client_name = d.client_name;
      redirect_uris = uris;
      application_type = d.application_type;
    })

abbrev type_members : Option CimdApplicationType → Members
type_members none = no_members
type_members (some native) = member "application_type" (text "native") no_members
type_members (some web) = member "application_type" (text "web") no_members

-- The projection's members, as the flow cookie carries them.
unfoldable pub claim_of : CimdRegistration → Json
unfolding text_items
claim_of r = object (
    member "client_id" (text r.client_id) (
      member "client_name" (text r.client_name) (
        member "redirect_uris" (array (text_items r.redirect_uris))
          (type_members r.application_type))))

abbrev pub or_plain {ℓ} : {A : Type ℓ} → String → Option A → Result A
or_plain message none = err (plain message)
or_plain message (some a) = ok a

abbrev claim_object : Option Json → Option Members
claim_object (some (object ms)) = some ms
claim_object _ = none

abbrev full_text : Json → Option String
full_text (text s) = if s == "" then none else some s
full_text _ = none

unfoldable pub claim_uris : List Json → Result (List String)
claim_uris [] = ok []
claim_uris (v ∷ vs) = do
  s ← or_plain "cimd claim redirect_uris entry is invalid" (full_text v)
  ss ← claim_uris vs
  ok (s ∷ ss)

abbrev same_id : Option String → Option String → Option String
same_id (some id) (some expected) = if id == expected then some id else none
same_id _ _ = none

abbrev claim_name : Option String → Option String
claim_name (some name) = if is_name name then some name else none
claim_name none = none

abbrev claim_entries : Option (List Json) → Option (List Json)
claim_entries (some vs) = if few_uris vs then some vs else none
claim_entries none = none

abbrev parse_members : Members → Option String → Result CimdRegistration
parse_members ms expected = do
  client_id ←
      or_plain "cimd claim client_id does not match the flow params"
        (same_id (as_text (own "client_id" ms)) expected)
  client_name ←
      or_plain "cimd claim client_name is invalid" (claim_name (as_text (own "client_name" ms)))
  entries ←
      or_plain "cimd claim redirect_uris is invalid"
        (claim_entries (as_array (own "redirect_uris" ms)))
  application_type ←
      or_plain "cimd claim application_type is invalid"
        (application_type_of (own "application_type" ms))
  redirect_uris ← claim_uris entries
  ok (record {
    client_id = client_id;
    client_name = client_name;
    redirect_uris = redirect_uris;
    application_type = application_type;
  })

-- The expected client id is none where it is no text.
unfoldable pub parse_cimd_registration_claim :
    Option Json → (expected : Option String) → Result CimdRegistration
unfolding own items utf16_length application_type_of claim_uris
parse_cimd_registration_claim claim expected =
    or_plain "cimd claim must be an object" (claim_object claim) >>= λ ms. parse_members ms expected

abbrev pub is_web : Option CimdApplicationType → Bool
is_web (some web) = true
is_web _ = false

-- Any port of a registered loopback http entry.
abbrev pub same_but_port : RedirectEntry → RedirectEntry → Bool
same_but_port presented registered =
    registered.url.protocol == "http:"
    && is_loopback_redirect registered
    && presented.url.protocol == registered.url.protocol
    && presented.url.hostname == registered.url.hostname
    && presented.url.pathname == registered.url.pathname
    && presented.url.search == registered.url.search

abbrev pub cimd_match : Option CimdApplicationType → RedirectEntry → RedirectEntry → Bool
cimd_match t presented registered =
    registered.raw == presented.raw || (not (is_web t) && same_but_port presented registered)

abbrev pub is_matched :
    Option CimdApplicationType → Result RedirectEntry → Result (List RedirectEntry) → Bool
is_matched t (ok presented) (ok registered) = any (cimd_match t presented) registered
is_matched t _ _ = false

-- `cimdRedirectMatches`: a text that is no entry, presented or registered, makes it false.
unfoldable pub cimd_redirect_matches :
    (parse_url : String → Option Url) → String → CimdRegistration → Bool
unfolding any oauth_entry oauth_entries
cimd_redirect_matches parse_url presented r =
    is_matched r.application_type (oauth_entry parse_url false presented)
      (oauth_entries parse_url false r.redirect_uris)

abbrev is_loopback_url : Option Url → Bool
is_loopback_url none = false
is_loopback_url (some url) = url.protocol == "http:" && is_loopback_host url.hostname

unfoldable pub every_redirect_is_loopback : (parse_url : String → Option Url) → List String → Bool
unfolding all is_loopback_host
every_redirect_is_loopback parse_url uris =
    ltb 0 (length uris) && all (λ uri. is_loopback_url (parse_url uri)) uris
