-- ===== src/Cimd/Registration/Laws.antt =====
-- cimd/registration.ts: what the matcher of redirect URIs accepts.
use mcp_sso.Common.{
  ◌∙◌, ◌≢◌, ◌⊎◌, ◌==◌, String, List, [], ◌∷◌, Option, none, some, true, false, ◌≡◌, inl, inr, arith,
  eq_iff, any, includes, Bool-cases, Option-cases,
}
use mcp_sso.Errors.{ok, Result-cases}
use mcp_sso.Redirect.Entry.{is_loopback_redirect, parse_redirect_entry, entry, Url, RedirectEntry}
use mcp_sso.Redirect.Policy.{oauth_entry, oauth_entries}
use mcp_sso.Redirect.Laws.{
  IsEntry, parse_redirect_entry_sound, oauth_entry-parsed, any-Registered, entries_turn,
  oauth_entry-raw,
}
use mcp_sso.Cimd.Json.{Json}
use mcp_sso.Cimd.Document.{
  native, web, CimdApplicationType, CimdDocument, as_object, validate_cimd_document,
}
use mcp_sso.Cimd.Registration.{
  is_web, same_but_port, CimdRegistration, project_cimd_registration, cimd_match,
  cimd_redirect_matches,
}
use mcp_sso.Cimd.Registration.Claim.{validate_members-Validated}

-- The registered entry is the presented text, or the same loopback http entry but for its port.
abbrev pub Fits : Option CimdApplicationType → (presented registered : RedirectEntry) → Type 0
Fits t presented registered =
    (registered.raw ≡ presented.raw)
    ⊎ ((t ≢ some web)
        × (registered.url.protocol ≡ "http:")
        × (presented.url.protocol ≡ "http:")
        × (is_loopback_redirect registered ≡ true)
        × (presented.url.hostname ≡ registered.url.hostname)
        × (presented.url.pathname ≡ registered.url.pathname)
        × (presented.url.search ≡ registered.url.search))

not-web : (t : Option CimdApplicationType) → is_web t ≡ false → t ≢ some web
not-web none h p = cc
not-web (some native) h p = cc
not-web (some web) h p = cc

cimd_match-Fits :
    (t : Option CimdApplicationType) (e r : RedirectEntry) → cimd_match t e r ≡ true → Fits t e r
cimd_match-Fits t e r h = elim (Bool-cases (r.raw == e.raw)) [
  | inl same ↦ inl ((eq_iff r.raw e.raw).0 same)
  | inr other ↦
      let others : same_but_port e r ≡ true = ground (arith, h, other) in
      let http : r.url.protocol ≡ "http:" = ground (arith, others, eq_iff r.url.protocol "http:") in
      let alike : e.url.protocol ≡ r.url.protocol =
        ground (arith, others, eq_iff e.url.protocol r.url.protocol) in
      inr (
        not-web t (ground (arith, h, other)),
        http,
        alike ∙ http,
        ground (arith, others),
        ground (arith, others, eq_iff e.url.hostname r.url.hostname),
        ground (arith, others, eq_iff e.url.pathname r.url.pathname),
        ground (arith, others, eq_iff e.url.search r.url.search),
      )
]

module _ (parse_url : String → Option Url) where
  -- A redirect URI that the matcher accepts is a good entry; some registered entry has its text, or the
  -- client is no web client and that entry is loopback http and differs from it in the port alone.
  pub matches_sound :
      (presented : String) (r : CimdRegistration)
      → cimd_redirect_matches parse_url presented r ≡ true
      → (e : RedirectEntry) × IsEntry parse_url false presented e
        × ((uri : String) × (registered : RedirectEntry) × (includes r.redirect_uris uri ≡ true)
            × (parse_redirect_entry parse_url false uri ≡ entry registered)
            × Fits r.application_type e registered)
  unfolding cimd_redirect_matches
  matches_sound presented r h = elim (Result-cases (oauth_entry parse_url false presented)) [
    | inr (x, bad) ↦ ground (arith, bad)
    | inl (e, good) ↦ elim (Result-cases (oauth_entries parse_url false r.redirect_uris)) [
      | inr (x, bad) ↦ ground (arith, good, bad)
      | inl (es, found) ↦
          let (uri, registered, listed, parsed, fits) =
            any-Registered parse_url false (cimd_match r.application_type e) r.redirect_uris es
              found (ground (arith, good, found)) in
          (
            e,
            parse_redirect_entry_sound parse_url false presented e
                (oauth_entry-parsed parse_url false presented e good),
            (uri, registered, listed, parsed, cimd_match-Fits r.application_type e registered fits),
          )
    ]
  ]

  any-included :
      (t : Option CimdApplicationType) (u : String) (presented : RedirectEntry) (us : List String)
      (es : List RedirectEntry)
      → presented.raw ≡ u
      → includes us u ≡ true
      → oauth_entries parse_url false us ≡ ok es
      → any (cimd_match t presented) es ≡ true
  unfolding any includes
  any-included t u presented [] es raw h k = ground arith
  any-included t u presented (v ∷ vs) es raw h k =
      let (e, rest, good, found, same) = entries_turn parse_url false v vs es k in
      rw same (
        ground (
          arith,
          h,
          any-included t u presented vs rest raw,
          found,
          eq_iff v u,
          oauth_entry-raw parse_url false v e good,
          raw,
          eq_iff e.raw presented.raw,
        ))

  includes-parsed :
      (u : String) (us : List String) (es : List RedirectEntry)
      → includes us u ≡ true
      → oauth_entries parse_url false us ≡ ok es
      → (e : RedirectEntry) × (oauth_entry parse_url false u ≡ ok e)
  unfolding includes
  includes-parsed u [] es h k = cc
  includes-parsed u (v ∷ vs) es h k =
      let (e, rest, good, found, same) = entries_turn parse_url false v vs es k in
      elim (Bool-cases (v == u)) [
        | inl p ↦ let q : v ≡ u = (eq_iff v u).0 p in (e, cc (q, good))
        | inr p ↦ includes-parsed u vs rest (ground (arith, h, p)) found
      ]

  -- Every redirect URI of a document that the validation accepts is accepted for its registration.
  pub own_redirects_match :
      (parse_json : String → Option Json) (body id uri : String) (d : CimdDocument)
      (r : CimdRegistration)
      → validate_cimd_document parse_url parse_json body id ≡ ok d
      → project_cimd_registration parse_url d ≡ ok r
      → includes d.redirect_uris uri ≡ true
      → cimd_redirect_matches parse_url uri r ≡ true
  unfolding validate_cimd_document project_cimd_registration cimd_redirect_matches
  own_redirects_match parse_json body id uri d r h k inside =
      elim (Option-cases (as_object (parse_json body))) [
        | inl bad ↦ ground (arith, bad)
        | inr (ms, read) ↦
            let (same, named, entries, filled, few) =
              validate_members-Validated parse_url ms id d (ground (arith, read, h)) in
            let (es, found) = entries.parsed in
            let (e, good) = includes-parsed uri d.redirect_uris es inside found in
            let listed : r.redirect_uris ≡ d.redirect_uris = ground (arith, k, entries.checked) in
            rw (listed, good, found)
              (any-included r.application_type uri e d.redirect_uris es
                (oauth_entry-raw parse_url false uri e good) inside found)
      ]
