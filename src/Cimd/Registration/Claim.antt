-- ===== src/Cimd/Registration/Claim.antt =====
-- cimd/document.ts and cimd/registration.ts: a validated document survives its way through the flow cookie.
use mcp_sso.Common.{
  suc, String, List, [], ◌∷◌, Option, none, some, true, false, ◌==◌, ◌≡◌, refl, ap, inl, inr, arith,
  eq_iff, eq_refl, utf8_length, length, leb, Bool-cases, Option-cases,
}
use mcp_sso.Errors.{ok, err, Result-cases, require-passed}
use mcp_sso.Redirect.Entry.{Url, RedirectEntry, parse_redirect_entry, raw_problem, with_raw}
use mcp_sso.Redirect.Policy.{oauth_entry, oauth_entries}
use mcp_sso.Cimd.Json.{
  Json, null, boolean, number, fraction, text, array, object, Members, items, text_items, own,
}
use mcp_sso.Cimd.Document.{
  CimdApplicationType, native, web, CimdDocument, is_name, identity_of, name_of, uris_of, as_array,
  as_text, as_object, few_uris, application_type_of, assert_cimd_redirect_uri, redirect_texts,
  validate_members, validate_cimd_document, invalid,
}
use mcp_sso.Cimd.Registration.{
  CimdRegistration, project_cimd_registration, claim_of, claim_uris, parse_cimd_registration_claim,
}

module _ (parse_url : String → Option Url) where
  empty-refused : assert_cimd_redirect_uri parse_url (text "") ≡ err invalid
  unfolding assert_cimd_redirect_uri parse_redirect_entry raw_problem utf8_length with_raw
  empty-refused = refl

  assert-nonempty :
      (s : String) → assert_cimd_redirect_uri parse_url (text s) ≡ ok s → (s == "") ≡ false
  assert-nonempty s h = elim (Bool-cases (s == "")) [
    | inr e ↦ e
    | inl e ↦ let p : s ≡ "" = (eq_iff s "").0 e in cc (h, p, empty-refused)
  ]

  -- The texts of the entries that a document lists.
  pub record AreEntries (us : List String) : Type 0 where
    pub checked : redirect_texts parse_url (items (text_items us)) ≡ ok us
    pub claimed : claim_uris (items (text_items us)) ≡ ok us
    pub parsed : (es : List RedirectEntry) × (oauth_entries parse_url false us ≡ ok es)

  assert-text : (v : Json) (s : String) → assert_cimd_redirect_uri parse_url v ≡ ok s → v ≡ text s
  unfolding assert_cimd_redirect_uri
  assert-text (text t) s h = ground arith
  assert-text null s h = cc
  assert-text (boolean b) s h = cc
  assert-text (number n) s h = cc
  assert-text fraction s h = cc
  assert-text (array vs) s h = cc
  assert-text (object ms) s h = cc

  assert-oauth_entry :
      (s : String)
      → assert_cimd_redirect_uri parse_url (text s) ≡ ok s
      → (e : RedirectEntry) × (oauth_entry parse_url false s ≡ ok e)
  unfolding assert_cimd_redirect_uri oauth_entry
  assert-oauth_entry s h = elim (Result-cases (oauth_entry parse_url false s)) [
    | inl found ↦ found
    | inr (x, bad) ↦ ground (arith, bad)
  ]

  AreEntries-nil : AreEntries []
  unfolding redirect_texts claim_uris text_items items oauth_entries
  AreEntries-nil = record { checked = refl; claimed = refl; parsed = ([], refl) }

  AreEntries-cons :
      (s : String) (us : List String)
      → assert_cimd_redirect_uri parse_url (text s) ≡ ok s
      → AreEntries us
      → AreEntries (s ∷ us)
  unfolding redirect_texts claim_uris text_items items oauth_entries
  AreEntries-cons s us h k =
      let (e, good) = assert-oauth_entry s h in
      let (es, found) = k.parsed in
      record {
        checked = ground (arith, h, k.checked);
        claimed = ground (arith, assert-nonempty s h, k.claimed);
        parsed = (e ∷ es, ground (arith, good, found));
      }

  redirect_texts-AreEntries :
      (vs : List Json) (us : List String)
      → redirect_texts parse_url vs ≡ ok us
      → AreEntries us × (length us ≡ length vs)
  unfolding redirect_texts
  redirect_texts-AreEntries [] us h =
      let e : [] ≡ us = ground arith in rw (← e) (AreEntries-nil, refl)
  redirect_texts-AreEntries (v ∷ vs) us h =
      elim (Result-cases (assert_cimd_redirect_uri parse_url v)) [
        | inr (x, bad) ↦ ground (arith, bad)
        | inl (s, good) ↦ elim (Result-cases (redirect_texts parse_url vs)) [
          | inr (x, bad) ↦ ground (arith, good, bad)
          | inl (rest, found) ↦
              let (k, same_length) = redirect_texts-AreEntries vs rest found in
              let both : us ≡ s ∷ rest = ground (arith, good, found) in
              rw both (
                AreEntries-cons s rest (cc (good, assert-text v s good)) k,
                ground (arith, same_length),
              )
        ]
      ]

  -- What the checks of a document leave of it.
  abbrev pub Validated : String → CimdDocument → Type 0
  Validated id d =
      (d.client_id ≡ id)
      × (is_name d.client_name ≡ true)
      × AreEntries d.redirect_uris
      × (leb 1 (length d.redirect_uris) ≡ true)
      × (leb (length d.redirect_uris) 16 ≡ true)

  uris_of-passed :
      (ms : Members) (us : List String)
      → uris_of parse_url ms ≡ ok us
      → AreEntries us × (leb 1 (length us) ≡ true) × (leb (length us) 16 ≡ true)
  uris_of-passed ms us h = elim (Option-cases (as_array (own "redirect_uris" ms))) [
    | inl bad ↦ ground (arith, bad)
    | inr (vs, listed) ↦
        let (few, read) =
          require-passed (few_uris vs) invalid (redirect_texts parse_url vs) us
            (ground (arith, listed, h)) in
        let (entries, same) = redirect_texts-AreEntries vs us read in
        (entries, rw same (ground (arith, few)), rw same (ground (arith, few)))
  ]

  identity_of-passed : (ms : Members) (id i : String) → identity_of ms id ≡ ok i → i ≡ id
  identity_of-passed ms id i h = elim (Option-cases (as_text (own "client_id" ms))) [
    | inl bad ↦ ground (arith, bad)
    | inr (t, found) ↦ ground (arith, found, eq_iff t id)
  ]

  name_of-passed : (ms : Members) (n : String) → name_of ms ≡ ok n → is_name n ≡ true
  name_of-passed ms n h = elim (Option-cases (as_text (own "client_name" ms))) [
    | inl bad ↦ ground (arith, bad)
    | inr (t, found) ↦
        let (good, same) = require-passed (is_name t) invalid (ok t) n (ground (arith, found, h)) in
        let e : t ≡ n = ground (arith, same) in rw (← e) good
  ]

  pub validate_members-Validated :
      (ms : Members) (id : String) (d : CimdDocument)
      → validate_members parse_url ms id ≡ ok d
      → Validated id d
  unfolding validate_members
  validate_members-Validated ms id d h = elim (Result-cases (identity_of ms id)) [
    | inr (x, bad) ↦ ground (arith, bad)
    | inl (i, known) ↦ elim (Result-cases (name_of ms)) [
      | inr (x, bad) ↦ ground (arith, known, bad)
      | inl (n, named) ↦ elim (Result-cases (uris_of parse_url ms)) [
        | inr (x, bad) ↦ ground (arith, known, named, bad)
        | inl (us, listed) ↦
            let (entries, some_listed, few) = uris_of-passed ms us listed in
            let here : d.redirect_uris ≡ us = ground (arith, known, named, listed) in
            let name_here : d.client_name ≡ n = ground (arith, known, named, listed) in
            (
              ground (arith, known, named, listed, identity_of-passed ms id i known),
              rw name_here (name_of-passed ms n named),
              rw here entries,
              rw here some_listed,
              rw here few,
            )
      ]
    ]
  ]

  length-text_items : (us : List String) → length (items (text_items us)) ≡ length us
  unfolding items text_items
  length-text_items [] = refl
  length-text_items (u ∷ us) = ap suc (length-text_items us)

  few_uris-text_items :
      (us : List String)
      → leb 1 (length us) ≡ true
      → leb (length us) 16 ≡ true
      → few_uris (items (text_items us)) ≡ true
  few_uris-text_items us h k = rw (length-text_items us) (ground (arith, h, k))

  -- A registration with the bounds of a document is what its claim gives.
  claim-parsed :
      (id name : String) (us : List String) (t : Option CimdApplicationType)
      → is_name name ≡ true
      → AreEntries us
      → few_uris (items (text_items us)) ≡ true
      → let r : CimdRegistration = record {
        client_id = id;
        client_name = name;
        redirect_uris = us;
        application_type = t;
      } in
        parse_cimd_registration_claim (some (claim_of r)) (some id) ≡ ok r
  unfolding parse_cimd_registration_claim claim_of own application_type_of
  claim-parsed id name us none named entries few =
      ground (arith, named, few, entries.claimed, eq_refl id)
  claim-parsed id name us (some native) named entries few =
      ground (arith, named, few, entries.claimed, eq_refl id)
  claim-parsed id name us (some web) named entries few =
      ground (arith, named, few, entries.claimed, eq_refl id)

  -- A document that the validation accepts is projected, and the projection's claim, read back under the
  -- client id that was asked for, is that same registration. It has this client id.
  pub document_survives :
      (parse_json : String → Option Json) (body id : String) (d : CimdDocument)
      → validate_cimd_document parse_url parse_json body id ≡ ok d
      → (r : CimdRegistration) × (project_cimd_registration parse_url d ≡ ok r)
        × (parse_cimd_registration_claim (some (claim_of r)) (some id) ≡ ok r)
        × (r.client_id ≡ id)
        × (r.redirect_uris ≡ d.redirect_uris)
  unfolding validate_cimd_document project_cimd_registration
  document_survives parse_json body id d h = elim (Option-cases (as_object (parse_json body))) [
    | inl bad ↦ ground (arith, bad)
    | inr (ms, found) ↦
        let (same, named, entries, filled, few) =
          validate_members-Validated ms id d (ground (arith, found, h)) in
        let r : CimdRegistration = record {
          client_id = d.client_id;
          client_name = d.client_name;
          redirect_uris = d.redirect_uris;
          application_type = d.application_type;
        } in
        (
          r,
          ground (arith, entries.checked),
          rw (← same) (
              claim-parsed d.client_id d.client_name d.redirect_uris d.application_type named
                entries (few_uris-text_items d.redirect_uris filled few)),
          same,
          refl,
        )
  ]
