-- ===== src/Cimd/Document.antt =====
-- cimd/document.ts: the validation of a fetched document. Each refusal is the one `document_invalid`.
-- JSON.parse and the URL parser are parameters.
use mcp_sso.Common.{
  ℕ, ◌+◌, String, List, [], ◌∷◌, Option, none, some, Bool, true, false, not, ◌&&◌, ◌||◌, ◌==◌,
  codes, leb, ltb, length, all, any, if◌then◌else◌,
}
use mcp_sso.Errors.{Thrown, Result, ok, err, cimd, document_invalid, require, ◌>>=◌, ◌>>◌}
use mcp_sso.Redirect.Entry.{Url, entry, refused, Parsed, parse_redirect_entry}
use mcp_sso.Cimd.Json.{Json, text, array, object, Members, items, own, has_own}

pub data CimdApplicationType : Type 0 where
  native web : CimdApplicationType

-- `raw` is left out, since nothing reads it. `public_method` is selectedClientAuthMethod "none".
pub record CimdDocument : Type 0 where
  pub client_id : String
  pub client_name : String
  pub redirect_uris : List String
  pub application_type : Option CimdApplicationType
  pub public_method : Bool

abbrev pub invalid : Thrown
invalid = cimd document_invalid

-- `value.length` of a text, in UTF-16 units.
unfoldable pub utf16_length : List ℕ → ℕ
utf16_length [] = 0
utf16_length (c ∷ cs) = (if ltb c 0x1_0000 then 1 else 2) + utf16_length cs

abbrev pub or_invalid {ℓ} : {A : Type ℓ} → Option A → Result A
or_invalid none = err invalid
or_invalid (some a) = ok a

abbrev pub as_object : Option Json → Option Members
as_object (some (object ms)) = some ms
as_object _ = none

abbrev pub as_text : Option Json → Option String
as_text (some (text s)) = some s
as_text _ = none

abbrev pub as_array : Option Json → Option (List Json)
as_array (some (array vs)) = some (items vs)
as_array _ = none

abbrev pub is_name : String → Bool
is_name s = not (s == "") && leb (utf16_length (codes s)) 256

abbrev pub few_uris : List Json → Bool
few_uris vs = leb 1 (length vs) && leb (length vs) 16

abbrev pub is_full_text : Json → Bool
is_full_text (text s) = not (s == "")
is_full_text _ = false

abbrev pub is_any_text : Json → Bool
is_any_text (text s) = true
is_any_text _ = false

abbrev pub is_this : String → Json → Bool
is_this s (text t) = t == s
is_this s _ = false

-- The checks of an optional member that must be an array of texts holding one value.
abbrev pub lists_text : (Json → Bool) → String → Option Json → Bool
lists_text ok_item s (some (array vs)) = all ok_item (items vs) && any (is_this s) (items vs)
lists_text ok_item s _ = false

abbrev optional : (Option Json → Bool) → Option Json → Bool
optional check none = true
optional check (some v) = check (some v)

abbrev private_jwk_members : List String
private_jwk_members = "d" ∷ "p" ∷ "q" ∷ "dp" ∷ "dq" ∷ "qi" ∷ "oth" ∷ "k" ∷ []

unfoldable pub is_public_key : Json → Bool
unfolding any own
is_public_key (object key) = not (any (λ member. has_own member key) private_jwk_members)
is_public_key _ = false

abbrev all_public : Option Json → Bool
all_public (some (array vs)) = all is_public_key (items vs)
all_public _ = false

-- `assertPublicJwks`
unfoldable pub is_public_jwks : Option Json → Bool
unfolding all items is_public_key own
is_public_jwks (some (object set)) = all_public (own "keys" set)
is_public_jwks _ = false

-- `assertResponseTypes`
unfoldable pub are_response_types : Option Json → Bool
unfolding all any items
are_response_types v = lists_text is_any_text "code" v

-- `assertGrantTypes`
unfoldable pub are_grant_types : Option Json → Bool
unfolding all any items
are_grant_types v = lists_text is_full_text "authorization_code" v

-- `selectClientAuthMethod`: whether the document's own choice was replaced by the public method.
abbrev method_within : Option Json → Option Json → Bool
method_within none choices = true
method_within (some (text m)) (some (array vs)) = any (is_this m) (items vs)
method_within _ _ = false

abbrev chosen : Option Json → Bool → Option Bool
chosen none choices = some false
chosen (some (text m)) choices =
    if m == "none"
    then some false
    else if m == "private_key_jwt" && choices
    then some true
    else none
chosen (some _) choices = none

unfoldable pub select_client_auth_method : Members → Result Bool
unfolding own all any items
select_client_auth_method ms =
    let method = own "token_endpoint_auth_method" ms in
    let choices = own "token_endpoint_auth_methods_supported" ms in
    if has_own "token_endpoint_auth_methods_supported" ms
      && not (lists_text is_full_text "none" choices && method_within method choices)
    then err invalid
    else or_invalid (chosen method (has_own "token_endpoint_auth_methods_supported" ms))

-- An own `application_type` is one of two texts.
unfoldable pub application_type_of : Option Json → Option (Option CimdApplicationType)
application_type_of none = some none
application_type_of (some (text t)) =
    if t == "native" then some (some native) else if t == "web" then some (some web) else none
application_type_of (some _) = none

abbrev pub identity_of : Members → (raw_client_id : String) → Result String
identity_of ms raw_client_id = or_invalid (as_text (own "client_id" ms)) >>= λ id.
    require (id == raw_client_id) invalid >> ok id

abbrev pub name_of : Members → Result String
name_of ms = or_invalid (as_text (own "client_name" ms)) >>= λ name.
    require (is_name name) invalid >> ok name

abbrev keeps_rules : Members → Bool
keeps_rules ms =
    not (has_own "client_secret" ms || has_own "client_secret_expires_at" ms)
    && optional is_public_jwks (own "jwks" ms)
    && optional are_response_types (own "response_types" ms)
    && optional are_grant_types (own "grant_types" ms)

module _ (parse_url : String → Option Url) where
  abbrev is_entry : Parsed → Bool
  is_entry (entry e) = true
  is_entry (refused reason) = false

  -- `assertCimdRedirectUri`
  unfoldable pub assert_cimd_redirect_uri : Json → Result String
  assert_cimd_redirect_uri (text s) =
      if is_entry (parse_redirect_entry parse_url false s) then ok s else err invalid
  assert_cimd_redirect_uri _ = err invalid

  unfoldable pub redirect_texts : List Json → Result (List String)
  unfolding assert_cimd_redirect_uri
  redirect_texts [] = ok []
  redirect_texts (v ∷ vs) = do s ← assert_cimd_redirect_uri v; ss ← redirect_texts vs; ok (s ∷ ss)

  abbrev pub uris_of : Members → Result (List String)
  uris_of ms = or_invalid (as_array (own "redirect_uris" ms)) >>= λ vs.
      require (few_uris vs) invalid >> redirect_texts vs

  unfoldable pub validate_members : Members → (raw_client_id : String) → Result CimdDocument
  unfolding own items utf16_length redirect_texts application_type_of select_client_auth_method
      is_public_jwks are_response_types are_grant_types
  validate_members ms raw_client_id = do
    client_id ← identity_of ms raw_client_id
    client_name ← name_of ms
    redirect_uris ← uris_of ms
    application_type ← or_invalid (application_type_of (own "application_type" ms))
    public_method ← select_client_auth_method ms
    require (keeps_rules ms) invalid
    ok (record {
      client_id = client_id;
      client_name = client_name;
      redirect_uris = redirect_uris;
      application_type = application_type;
      public_method = public_method;
    })

  unfoldable pub validate_cimd_document :
      (parse_json : String → Option Json) → (raw_body raw_client_id : String) → Result CimdDocument
  unfolding validate_members
  validate_cimd_document parse_json raw_body raw_client_id =
      or_invalid (as_object (parse_json raw_body)) >>= λ ms. validate_members ms raw_client_id
