-- ===== src/Authorize/Plain.antt =====
-- authorize.ts and what it calls: an error that a check throws carries no redirect of its own.
use mcp_sso.Common.{
  ℕ, ◌*◌, String, List, [], ◌∷◌, ◌++◌, Option, none, some, Bool, true, false, ◌≡◌, refl, arith,
  is_none, inl, inr, if◌then◌else◌,
}
use mcp_sso.Errors
use mcp_sso.Errors.{Thrown, oauth, Result, ok, err, Result-cases, require, call_port, port_error}
use mcp_sso.Subject.{identity_subject}
use mcp_sso.Clock.{finite_clock_snapshot, integer_clock_snapshot}
use mcp_sso.Scopes.{
  ScopeInput, stored_scopes, assert_allowed_scopes_ceiling, normalize_scopes, normalize_once,
  normalize_items, scope_items, absent, listed, text, trim_text, is_blank_text, push_new,
  or_defaults,
}
use mcp_sso.Redirect.Entry.{Url, RedirectEntry}
use mcp_sso.Redirect.Policy.{
  ApplicationType, native, web, machine, RedirectAllowlistMode, built_ins, oauth_entry,
  oauth_entries, assert_allowed_redirect_uri, client_policy, assert_redirect_allowed_for_client,
  ClientRegistration,
}
use mcp_sso.Token.Env.{required}
use mcp_sso.Consent.{JwtPlatform, ConsentRequestClaims, sign_consent_token}

unfoldable pub is_plain : Thrown → Bool
is_plain (oauth e) = is_none e.redirect
is_plain _ = true

-- A result that is no error with a redirect.
unfoldable pub fails_plain {ℓ} : {A : Type ℓ} → Result A → Bool
unfolding is_plain
fails_plain (ok a) = true
fails_plain (err e) = is_plain e

pub bind-plain {ℓ κ} :
    {A : Type ℓ} {B : Type κ} (m : Result A) (f : A → Result B)
    → fails_plain m ≡ true
    → ((a : A) → fails_plain (f a) ≡ true)
    → fails_plain (Errors.◌>>=◌ m f) ≡ true
unfolding fails_plain
bind-plain (ok a) f h k = k a
bind-plain (err e) f h k = h

pub require-plain : (b : Bool) (e : Thrown) → is_plain e ≡ true → fails_plain (require b e) ≡ true
unfolding fails_plain
require-plain true e h = refl
require-plain false e h = h

pub call_port-plain {ℓ} :
    {A : Type ℓ} (port operation : String) (r : Result A)
    → fails_plain (call_port port operation r) ≡ true
unfolding fails_plain call_port port_error
call_port-plain port operation (ok a) = refl
call_port-plain port operation (err (oauth e)) = refl
call_port-plain port operation (err e) = ground arith

pub required-plain : (o : Option String) (label : String) → fails_plain (required o label) ≡ true
unfolding fails_plain required
required-plain none label = refl
required-plain (some v) label = ground arith

pub identity_subject-plain : (v : String) → fails_plain (identity_subject v) ≡ true
unfolding fails_plain identity_subject
identity_subject-plain v = ground arith

pub clock-plain :
    (clock : Option ℕ) (offset : ℕ) → fails_plain (finite_clock_snapshot clock offset) ≡ true
unfolding fails_plain finite_clock_snapshot integer_clock_snapshot
clock-plain none offset = refl
clock-plain (some now) offset = ground arith

pub stored_scopes-plain :
    (value catalog : List String) → fails_plain (stored_scopes value catalog) ≡ true
unfolding fails_plain stored_scopes
stored_scopes-plain value catalog = ground arith

pub ceiling-plain :
    (o : Option (List String)) → fails_plain (assert_allowed_scopes_ceiling o) ≡ true
unfolding fails_plain assert_allowed_scopes_ceiling
ceiling-plain none = refl
ceiling-plain (some scopes) = ground arith

normalize_items-plain :
    (catalog out items : List String) → fails_plain (normalize_items catalog out items) ≡ true
unfolding fails_plain normalize_items
normalize_items-plain catalog out [] = refl
normalize_items-plain catalog out (item ∷ items) =
    let v = trim_text item in
    ground
      (arith, normalize_items-plain catalog (if is_blank_text v then out else push_new out v) items)

scope_items-plain :
    (scope : ScopeInput) (defaults : List String) → fails_plain (scope_items scope defaults) ≡ true
unfolding fails_plain scope_items
scope_items-plain absent defaults = ground arith
scope_items-plain (listed items) defaults = ground arith
scope_items-plain (text value) defaults = ground arith

normalize_once-plain :
    (scope : ScopeInput) (catalog defaults : List String)
    → fails_plain (normalize_once scope catalog defaults) ≡ true
unfolding normalize_once
normalize_once-plain scope catalog defaults =
    bind-plain (scope_items scope defaults) (normalize_items catalog [])
      (scope_items-plain scope defaults) (normalize_items-plain catalog [])

or_defaults-plain :
    (scope : ScopeInput) (catalog defaults out : List String)
    → fails_plain (or_defaults scope catalog defaults out) ≡ true
unfolding fails_plain
or_defaults-plain absent catalog defaults out = refl
or_defaults-plain (listed items) catalog defaults [] = normalize_once-plain absent catalog defaults
or_defaults-plain (text value) catalog defaults [] = normalize_once-plain absent catalog defaults
or_defaults-plain (listed items) catalog defaults (s ∷ ss) = refl
or_defaults-plain (text value) catalog defaults (s ∷ ss) = refl

pub normalize_scopes-plain :
    (scope : ScopeInput) (catalog defaults : List String)
    → fails_plain (normalize_scopes scope catalog defaults) ≡ true
unfolding normalize_scopes
normalize_scopes-plain scope catalog defaults =
    bind-plain (normalize_once scope catalog defaults) (or_defaults scope catalog defaults)
      (normalize_once-plain scope catalog defaults) (or_defaults-plain scope catalog defaults)

pub sign-plain :
    (jwt : JwtPlatform) (c : ConsentRequestClaims) (clock : Option ℕ) (ttl : ℕ) (jti : String)
    → fails_plain (sign_consent_token jwt c clock ttl jti) ≡ true
unfolding sign_consent_token fails_plain
sign-plain jwt c clock ttl jti =
    ground (arith, identity_subject-plain c.subject, clock-plain clock (ttl * 1000))

module _ (parse_url : String → Option Url) where
  pub oauth_entry-plain :
      (omitted : Bool) (v : String) → fails_plain (oauth_entry parse_url omitted v) ≡ true
  unfolding oauth_entry fails_plain
  oauth_entry-plain omitted v = ground arith

  oauth_entries-plain :
      (omitted : Bool) (vs : List String) → fails_plain (oauth_entries parse_url omitted vs) ≡ true
  unfolding oauth_entries fails_plain
  oauth_entries-plain omitted [] = refl
  oauth_entries-plain omitted (v ∷ vs) =
      ground (arith, oauth_entry-plain omitted v, oauth_entries-plain omitted vs)

  pub allowed_redirect-plain :
      (v : String) (allowlist : List String) (mode : RedirectAllowlistMode)
      → fails_plain (assert_allowed_redirect_uri parse_url v allowlist mode) ≡ true
  unfolding assert_allowed_redirect_uri fails_plain
  allowed_redirect-plain v allowlist mode =
      ground
        (arith, oauth_entry-plain false v, oauth_entries-plain true (built_ins mode ++ allowlist))

  client_policy-plain :
      (t : ApplicationType) (presented : RedirectEntry) (registered : List RedirectEntry)
      → fails_plain (client_policy t presented registered) ≡ true
  unfolding client_policy fails_plain
  client_policy-plain machine presented registered = refl
  client_policy-plain web presented registered = ground arith
  client_policy-plain native presented registered = ground arith

  pub client_redirect-plain :
      (v : String) (client : ClientRegistration)
      → fails_plain (assert_redirect_allowed_for_client parse_url v client) ≡ true
  unfolding assert_redirect_allowed_for_client
  client_redirect-plain v client = elim (Result-cases (oauth_entry parse_url false v)) [
    | inr (e, bad) ↦ unfold fails_plain in ground (arith, bad, oauth_entry-plain false v)
    | inl (presented, good) ↦
        elim (Result-cases (oauth_entries parse_url false client.redirect_uris)) [
          | inr (e, bad) ↦
              unfold fails_plain in
              ground (arith, good, bad, oauth_entries-plain false client.redirect_uris)
          | inl (registered, found) ↦
              unfold fails_plain in
              ground (
                arith,
                good,
                found,
                client_policy-plain client.application_type presented registered,
              )
        ]
  ]
