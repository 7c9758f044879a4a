-- ===== src/Redirect/Laws.antt =====
-- redirect-entry.ts and redirect.ts: what an accepted redirect URI satisfies.
use mcp_sso.Common.{
  ℕ, ◌≢◌, String, List, [], ◌∷◌, ◌++◌, Option, none, some, Bool, true, false, ◌≡◌, refl, ◌⊎◌, inl,
  inr, arith, eq_iff, includes, any, codes, Bool-cases,
}
use mcp_sso.Errors.{ok, Result-cases}
use mcp_sso.Redirect.Entry.{
  Url, RedirectEntry, RedirectEntryForm, entry, parse_redirect_entry, with_raw, parsed_url,
  with_url, with_form, raw_problem, url_problem, classify_path, is_canonical, origin,
}
use mcp_sso.Redirect.Parts.{
  IsForm, IsLoopback, classified-IsForm, canonical_cases, url_undotted, url_secure,
}
use mcp_sso.Redirect.Spelling.{IsSpelled, raw_problem-IsSpelled}
use mcp_sso.Redirect.Policy.{
  ClientRegistration, ApplicationType, native, web, machine, RedirectAllowlistMode, built_ins,
  oauth_entry, oauth_entries, client_policy, web_allowed, assert_redirect_allowed_for_client,
  assert_allowed_redirect_uri, global_match, same_raw, native_match, is_https_entry,
  is_native_entry,
}

entry_of_form :
    (omitted : Bool) (value : String) (url : Url) (o : Option RedirectEntryForm) (e : RedirectEntry)
    → with_form omitted value url o ≡ entry e
    → (o ≡ some e.form)
      × (is_canonical omitted value url e.form ≡ true)
      × (e.raw ≡ value)
      × (e.url ≡ url)
unfolding with_form
entry_of_form omitted value url none e h = cc
entry_of_form omitted value url (some form) e h = ground arith

entry_of_url :
    (omitted : Bool) (value : String) (problem : Option String) (url : Url) (e : RedirectEntry)
    → with_url omitted value problem url ≡ entry e
    → (problem ≡ none) × (with_form omitted value url (classify_path url) ≡ entry e)
unfolding with_url
entry_of_url omitted value none url e h = (refl, h)
entry_of_url omitted value (some r) url e h = cc

module _ (parse_url : String → Option Url) where
  -- What the grammar promises of an entry.
  pub record IsEntry (omitted : Bool) (value : String) (e : RedirectEntry) : Type 0 where
    pub raw : e.raw ≡ value
    pub spelled : IsSpelled (codes value)
    pub url : parse_url value ≡ some e.url
    pub form : IsForm e.form e.url.pathname
    pub canonical :
        (value ≡ e.url.href)
        ⊎ ((omitted ≡ true) × (e.form ≡ origin) × (Prim.Native.String.◌++◌ value "/" ≡ e.url.href))
    pub undotted : (xs : List ℕ) → codes e.url.hostname ≢ xs ++ b'.' ∷ []
    pub secure :
        (e.url.protocol ≡ "https:") ⊎ ((e.url.protocol ≡ "http:") × IsLoopback e.url.hostname)

  entry_of_parsed :
      (omitted : Bool) (value : String) (found : Option Url) (e : RedirectEntry)
      → parsed_url parse_url omitted value found ≡ entry e
      → (url : Url) × (found ≡ some url) × (with_url omitted value (url_problem url) url ≡ entry e)
  unfolding parsed_url
  entry_of_parsed omitted value none e h = cc
  entry_of_parsed omitted value (some url) e h = (url, refl, h)

  entry_of_raw :
      (omitted : Bool) (value : String) (problem : Option String) (e : RedirectEntry)
      → with_raw parse_url omitted value problem ≡ entry e
      → (problem ≡ none) × (parsed_url parse_url omitted value (parse_url value) ≡ entry e)
  unfolding with_raw
  entry_of_raw omitted value none e h = (refl, h)
  entry_of_raw omitted value (some r) e h = cc

  -- An accepted entry is the text itself: of at most 2048 bytes; of a scheme, an authority without
  -- userinfo and a path; without whitespace, controls, asterisks, backslashes, queries, fragments,
  -- and escapes that are malformed or of a control character. It is spelled as the URL parser
  -- spells it, or where that is allowed as an origin without its slash; its path is the root or has
  -- a segment; its host ends in no dot; and it is https, or http on a loopback host.
  pub parse_redirect_entry_sound :
      (omitted : Bool) (value : String) (e : RedirectEntry)
      → parse_redirect_entry parse_url omitted value ≡ entry e
      → IsEntry omitted value e
  unfolding parse_redirect_entry
  parse_redirect_entry_sound omitted value e h =
      let (clean, inner) = entry_of_raw omitted value (raw_problem (codes value)) e h in
      let (url, found, framed) = entry_of_parsed omitted value (parse_url value) e inner in
      let (secure, formed) = entry_of_url omitted value (url_problem url) url e framed in
      let (form, canonical, raw, same) =
        entry_of_form omitted value url (classify_path url) e formed in
      record {
        raw = raw;
        spelled = raw_problem-IsSpelled (codes value) clean;
        url = rw same found;
        form = rw same (classified-IsForm url e.form form);
        canonical = rw same (canonical_cases omitted value url e.form canonical);
        undotted = rw same (url_undotted url secure);
        secure = rw same (url_secure url secure);
      }

  pub oauth_entry-parsed :
      (omitted : Bool) (value : String) (e : RedirectEntry)
      → oauth_entry parse_url omitted value ≡ ok e
      → parse_redirect_entry parse_url omitted value ≡ entry e
  unfolding oauth_entry
  oauth_entry-parsed omitted value e h = ground arith

  pub oauth_entry-raw :
      (omitted : Bool) (value : String) (e : RedirectEntry)
      → oauth_entry parse_url omitted value ≡ ok e
      → e.raw ≡ value
  oauth_entry-raw omitted value e h =
      (parse_redirect_entry_sound omitted value e (oauth_entry-parsed omitted value e h)).raw

  -- An entry that one of the texts gives.
  abbrev pub Registered : Bool → List String → (RedirectEntry → Bool) → Type 0
  Registered omitted vs p =
      (v : String) × (e : RedirectEntry) × (includes vs v ≡ true)
      × (parse_redirect_entry parse_url omitted v ≡ entry e)
      × (p e ≡ true)

  pub entries_turn :
      (omitted : Bool) (v : String) (vs : List String) (es : List RedirectEntry)
      → oauth_entries parse_url omitted (v ∷ vs) ≡ ok es
      → (e : RedirectEntry) × (rest : List RedirectEntry) × (oauth_entry parse_url omitted v ≡ ok e)
        × (oauth_entries parse_url omitted vs ≡ ok rest)
        × (es ≡ e ∷ rest)
  unfolding oauth_entries
  entries_turn omitted v vs es h = elim (Result-cases (oauth_entry parse_url omitted v)) [
    | inr (x, bad) ↦ ground (arith, bad)
    | inl (e, good) ↦ elim (Result-cases (oauth_entries parse_url omitted vs)) [
      | inr (x, bad) ↦ ground (arith, good, bad)
      | inl (rest, found) ↦ (e, rest, good, found, ground (arith, good, found))
    ]
  ]

  pub any-Registered :
      (omitted : Bool) (p : RedirectEntry → Bool) (vs : List String) (es : List RedirectEntry)
      → oauth_entries parse_url omitted vs ≡ ok es
      → any p es ≡ true
      → Registered omitted vs p
  unfolding oauth_entries any includes
  any-Registered omitted p [] es h k = ground (arith, h)
  any-Registered omitted p (v ∷ vs) es h k =
      let (e, rest, good, found, same) = entries_turn omitted v vs es h in
      elim (Bool-cases (p e)) [
        | inl hit ↦ (v, e, ground (arith, eq_iff v v), oauth_entry-parsed omitted v e good, hit)
        | inr miss ↦
            let (w, f, inside, parsed, fits) =
              any-Registered omitted p vs rest found (ground (arith, same, miss)) in
            (w, f, ground (arith, inside), parsed, fits)
      ]

  -- What the presented URI and the registered ones satisfy, by the type of the client.
  abbrev pub Allowed : ApplicationType → List String → RedirectEntry → Type 0
  Allowed machine uris presented = ⊥
  Allowed web uris presented =
      (is_https_entry presented ≡ true) × Registered false uris (same_raw presented)
  Allowed native uris presented =
      (is_native_entry presented ≡ true) × Registered false uris (native_match presented)

  policy_passed :
      (t : ApplicationType) (presented : RedirectEntry) (uris : List String)
      (es : List RedirectEntry) (out : String)
      → oauth_entries parse_url false uris ≡ ok es
      → client_policy t presented es ≡ ok out
      → (out ≡ presented.raw) × Allowed t uris presented
  unfolding client_policy web_allowed
  policy_passed machine presented uris es out found h = cc
  policy_passed web presented uris es out found h = (
    ground arith,
    (ground arith, any-Registered false (same_raw presented) uris es found (ground arith)),
  )
  policy_passed native presented uris es out found h = (
    ground arith,
    (ground arith, any-Registered false (native_match presented) uris es found (ground arith)),
  )

  -- A redirect URI that `assertRedirectAllowedForClient` returns is the presented one, and a good
  -- entry; the client is no machine; for a web client it is https and registered to the letter, for
  -- a native client it is loopback and some registered entry has its text, or its host and path.
  pub client_redirect_sound :
      (redirect_uri : String) (client : ClientRegistration) (out : String)
      → assert_redirect_allowed_for_client parse_url redirect_uri client ≡ ok out
      → (out ≡ redirect_uri)
        × ((presented : RedirectEntry) × IsEntry false redirect_uri presented
            × Allowed client.application_type client.redirect_uris presented)
  unfolding assert_redirect_allowed_for_client
  client_redirect_sound redirect_uri client out h =
      elim (Result-cases (oauth_entry parse_url false redirect_uri)) [
        | inr (x, bad) ↦ ground (arith, bad)
        | inl (presented, good) ↦
            elim (Result-cases (oauth_entries parse_url false client.redirect_uris)) [
              | inr (x, bad) ↦ ground (arith, good, bad)
              | inl (es, found) ↦
                  let (raw, allowed) =
                    policy_passed client.application_type presented client.redirect_uris es out
                      found (ground (arith, good, found)) in
                  (
                    ground (arith, raw, oauth_entry-raw false redirect_uri presented good),
                    (
                      presented,
                      parse_redirect_entry_sound false redirect_uri presented
                          (oauth_entry-parsed false redirect_uri presented good),
                      allowed,
                    ),
                  )
            ]
      ]

  -- A redirect URI that `assertAllowedRedirectUri` returns is the presented one, a good entry, and
  -- matched by an entry of the allowlist or, in the extending mode, of the built-in origins.
  pub allowed_redirect_uri_sound :
      (value : String) (allowlist : List String) (mode : RedirectAllowlistMode) (out : String)
      → assert_allowed_redirect_uri parse_url value allowlist mode ≡ ok out
      → (out ≡ value)
        × ((presented : RedirectEntry) × IsEntry false value presented
            × Registered true (built_ins mode ++ allowlist) (λ e. global_match e presented))
  unfolding assert_allowed_redirect_uri
  allowed_redirect_uri_sound value allowlist mode out h =
      elim (Result-cases (oauth_entry parse_url false value)) [
        | inr (x, bad) ↦ ground (arith, bad)
        | inl (presented, good) ↦
            elim (Result-cases (oauth_entries parse_url true (built_ins mode ++ allowlist))) [
              | inr (x, bad) ↦ ground (arith, good, bad)
              | inl (es, found) ↦ (
                ground (arith, good, found, oauth_entry-raw false value presented good),
                (
                  presented,
                  parse_redirect_entry_sound false value presented
                      (oauth_entry-parsed false value presented good),
                  any-Registered true (λ e. global_match e presented) (built_ins mode ++ allowlist)
                      es found (ground (arith, good, found)),
                ),
              )
            ]
      ]
