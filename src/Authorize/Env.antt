-- ===== src/Authorize/Env.antt =====
-- What the authorization use case reads of its environment.
-- The client store and the resolver of client-id metadata documents are ports: functions that may throw.
use mcp_sso.Common.{ℕ, String, List, Option, none, some, Bool}
use mcp_sso.Errors.{Result}
use mcp_sso.Redirect.Entry.{Url}
use mcp_sso.Redirect.Policy.{ClientRegistration, RedirectAllowlistMode}
use mcp_sso.Cimd.Registration.{CimdRegistration}
use mcp_sso.Consent.{JwtPlatform}
use mcp_sso.Store.{Generation, null, number, stored_dcr_grant_generation}

pub data Dcr : Type 0 where
  stateless : Dcr
  stored_dcr : (find : String → Result (Option ClientRegistration)) → Dcr

pub record AuthorizeConfig : Type 0 where
  pub issuer : String
  pub resource : String
  pub scope_catalog : List String
  pub default_scopes : List String
  pub allowed_origins : List String
  pub redirect_allowlist : List String
  pub redirect_allowlist_mode : RedirectAllowlistMode
  pub dcr : Dcr
  pub cimd_enabled : Bool
  pub authorization_code_ttl_seconds : ℕ
  pub consent_token_ttl_seconds : ℕ

-- `resolve` is `CimdResolver.resolve` of a client id and a redirect URI, where a resolver was given.
pub record AuthorizePlatform : Type 0 where
  pub jwt : JwtPlatform
  pub sha256_hex : String → String
  pub parse_url : String → Option Url
  pub origin_of : String → String
  -- The URI with parameters set, or deleted where they are none, and without its fragment.
  pub with_params : String → List (String × Option String) → String
  pub resolve : Option (String → String → Result CimdRegistration)

unfoldable pub is_stored : Dcr → Bool
is_stored stateless = Bool.false
is_stored (stored_dcr find) = Bool.true

-- `expectedStoredDcrGrantGeneration`
unfoldable pub dcr_generation : AuthorizeConfig → Option ℕ
dcr_generation config = elim config.dcr [
  | stateless ↦ none
  | stored_dcr find ↦ some stored_dcr_grant_generation
]

unfoldable pub new_grant_generation : AuthorizeConfig → Generation
unfolding dcr_generation
new_grant_generation config = elim (dcr_generation config) [ none ↦ null | some n ↦ number n ]
