-- ===== src/Authorize/Client.antt =====
-- authorize-internals.ts and client-registration.ts: which client asks, and where it may be sent.
use mcp_sso.Common.{
  ℕ, String, List, [], ◌∷◌, Option, none, some, Bool, false, not, ◌&&◌, ◌||◌, ◌==◌, leb, nat_eq,
  length, includes, if◌then◌else◌,
}
use mcp_sso.Errors.{Thrown, Result, ok, err, oauth_error, require, call_port, ◌>>=◌, ◌>>◌}
use mcp_sso.Redirect.Policy.{
  ClientRegistration, ApplicationType, machine, assert_allowed_redirect_uri,
  assert_redirect_allowed_for_client,
}
use mcp_sso.Cimd.Registration.{
  CimdRegistration, is_scheme_shaped, is_cimd_client_id, cimd_redirect_matches,
}
use mcp_sso.Consent.{invalid_consent}
use mcp_sso.Authorize.Env.{
  AuthorizeConfig, AuthorizePlatform, Dcr, stateless, stored_dcr, is_stored,
}

abbrev pub cimd_generic_error : Thrown
cimd_generic_error = oauth_error "invalid_client" "client_id could not be resolved" 401

pub record ResolvedClient : Type 0 where
  pub redirect_uri : String
  pub registration : Option CimdRegistration

-- `parseAuthorizationClientRegistration`. A member of the wrong type cannot be written here.
abbrev expected_length : ApplicationType → ℕ → Bool
expected_length machine n = nat_eq n 0
expected_length _ n = leb 1 n && leb n 16

unfoldable pub parse_client_registration :
    ClientRegistration → (expected : String) → Option ClientRegistration
parse_client_registration c expected =
    if c.client_id == expected && expected_length c.application_type (length c.redirect_uris)
    then some c
    else none

module _ (platform : AuthorizePlatform) (config : AuthorizeConfig) where
  unfoldable pub assert_all_allowed : List String → Result (Unit {0})
  assert_all_allowed [] = ok tt
  assert_all_allowed (uri ∷ uris) =
      assert_allowed_redirect_uri platform.parse_url uri config.redirect_allowlist
        config.redirect_allowlist_mode
      >> assert_all_allowed uris

  abbrev pub with_client : String → Option ClientRegistration → Result String
  with_client redirect_uri none =
      err (oauth_error "invalid_client" "Malformed stored client registration" 401)
  with_client redirect_uri (some client) =
      assert_all_allowed client.redirect_uris
      >> assert_redirect_allowed_for_client platform.parse_url redirect_uri client

  abbrev pub with_found :
      (client_id redirect_uri : String) → Option ClientRegistration → Result String
  with_found client_id redirect_uri none =
      err (oauth_error "invalid_client" "Unknown client_id" 401)
  with_found client_id redirect_uri (some found) =
      with_client redirect_uri (parse_client_registration found client_id)

  unfoldable pub opaque_redirect_by : Dcr → (client_id redirect_uri : String) → Result String
  unfolding parse_client_registration assert_all_allowed
  opaque_redirect_by stateless client_id redirect_uri =
      assert_allowed_redirect_uri platform.parse_url redirect_uri config.redirect_allowlist
        config.redirect_allowlist_mode
  opaque_redirect_by (stored_dcr find) client_id redirect_uri =
      call_port "ClientStore" "find" (find client_id) >>= with_found client_id redirect_uri

  unfoldable pub resolve_opaque_redirect : (client_id redirect_uri : String) → Result String
  unfolding opaque_redirect_by
  resolve_opaque_redirect client_id redirect_uri =
      opaque_redirect_by config.dcr client_id redirect_uri

  -- A registration that the flow carried forward.
  abbrev carried : CimdRegistration → (client_id redirect_uri : String) → Result ResolvedClient
  carried r client_id redirect_uri =
      if not (r.client_id == client_id && cimd_redirect_matches platform.parse_url redirect_uri r)
      then err cimd_generic_error
      else ok (record { redirect_uri = redirect_uri; registration = some r })

  abbrev resolved_by :
      Option (String → String → Result CimdRegistration)
      → (client_id redirect_uri : String) → Result ResolvedClient
  resolved_by none client_id redirect_uri = err cimd_generic_error
  resolved_by (some resolve) client_id redirect_uri =
      if not config.cimd_enabled
      then err cimd_generic_error
      else resolve client_id redirect_uri >>= λ r.
          ok (record { redirect_uri = redirect_uri; registration = some r })

  abbrev pub dispatched : (client_id redirect_uri : String) → Result ResolvedClient
  dispatched client_id redirect_uri =
      if is_cimd_client_id client_id
      then resolved_by platform.resolve client_id redirect_uri
      else if is_scheme_shaped client_id
      then err cimd_generic_error
      else resolve_opaque_redirect client_id redirect_uri >>= λ uri.
          ok (record { redirect_uri = uri; registration = none })

  unfoldable pub resolve_authorize_client :
      (client_id redirect_uri : String) → Option CimdRegistration → Result ResolvedClient
  resolve_authorize_client client_id redirect_uri (some r) = carried r client_id redirect_uri
  resolve_authorize_client client_id redirect_uri none = dispatched client_id redirect_uri

  unfoldable pub accumulation_allowed : String → Bool
  unfolding is_stored
  accumulation_allowed client_id = is_stored config.dcr && not (is_scheme_shaped client_id)

  unfoldable pub assert_approve_cimd_gate : String → (verified : Bool) → Result (Unit {0})
  assert_approve_cimd_gate client_id verified =
      if is_cimd_client_id client_id
      then require (config.cimd_enabled && verified) invalid_consent
      else if is_scheme_shaped client_id
      then err invalid_consent
      else require (not verified) invalid_consent

  unfoldable pub assert_current_consent_redirect :
      (client_id redirect_uri : String) → Result (Unit {0})
  assert_current_consent_redirect client_id redirect_uri =
      if is_cimd_client_id client_id
      then ok tt
      else resolve_opaque_redirect client_id redirect_uri >>= λ uri. ok tt

  abbrev origin_fits : Option String → Bool
  origin_fits none = false
  origin_fits (some o) =
      not (o == "") && (includes config.allowed_origins o || o == platform.origin_of config.issuer)

  unfoldable pub approve_origin_allowed : Option String → Bool
  unfolding includes
  approve_origin_allowed o = origin_fits o

  unfoldable pub assert_approve_origin : Option String → Result (Unit {0})
  unfolding approve_origin_allowed
  assert_approve_origin o =
      require (approve_origin_allowed o) (oauth_error "invalid_origin" "Origin not allowed" 403)
