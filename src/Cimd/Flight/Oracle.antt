-- ===== src/Cimd/Flight/Oracle.antt =====
-- cimd/resolve.ts and cimd/anti-oracle.ts: what a client and the audit learn of a failed resolution.
use mcp_sso.Common.{
  String, List, [], ◌∷◌, Option, none, some, Bool, true, false, ◌≡◌, refl, ◌⊎◌, inl, inr, arith,
  includes, Bool-cases,
}
use mcp_sso.Errors.{
  Thrown, Result, ok, err, cimd, is_oauth, url_admission_denied, dns_failed, ip_blocked,
  redirect_refused, status_not_200, content_type, encoding, size_exceeded, timeout, fetch_failed,
  document_invalid, overloaded,
}
use mcp_sso.Redirect.Entry.{Url}
use mcp_sso.Cimd.Registration.{CimdRegistration, cimd_redirect_matches}
use mcp_sso.Cimd.Flight.{resolve, rate_guard, matched, rate_limited, map_cimd_error, audit_reason}
use mcp_sso.Authorize.Client.{cimd_generic_error}

-- AUDIT_REASONS
abbrev pub audit_reasons : List String
audit_reasons =
    "url_admission_denied" ∷ "dns_failed" ∷ "ip_blocked" ∷ "redirect_refused" ∷ "status_not_200"
    ∷ "content_type" ∷ "encoding" ∷ "size_exceeded" ∷ "timeout" ∷ "fetch_failed"
    ∷ "document_invalid" ∷ "overloaded" ∷ []

-- The reason, where there is one, is of the fixed list.
abbrev pub IsListed : Option String → Type 0
IsListed none = Unit
IsListed (some reason) = includes audit_reasons reason ≡ true

audit_reason-IsListed : (e : Thrown) → IsListed (some (audit_reason e))
unfolding audit_reason includes
audit_reason-IsListed (cimd url_admission_denied) = refl
audit_reason-IsListed (cimd dns_failed) = refl
audit_reason-IsListed (cimd ip_blocked) = refl
audit_reason-IsListed (cimd redirect_refused) = refl
audit_reason-IsListed (cimd status_not_200) = refl
audit_reason-IsListed (cimd content_type) = refl
audit_reason-IsListed (cimd encoding) = refl
audit_reason-IsListed (cimd size_exceeded) = refl
audit_reason-IsListed (cimd timeout) = refl
audit_reason-IsListed (cimd fetch_failed) = refl
audit_reason-IsListed (cimd document_invalid) = refl
audit_reason-IsListed (cimd overloaded) = refl
audit_reason-IsListed e = refl

rate_guard-cases :
    (answers : List (Option Bool))
    → (rate_guard answers ≡ ok tt) ⊎ (rate_guard answers ≡ err rate_limited)
unfolding rate_guard
rate_guard-cases answers = ground arith

module _ (enabled : Bool) (answers : List (Option Bool)) (parse_url : String → Option Url)
    (redirect_uri : String) where
  -- What an answer of the resolver tells, by its outcome.
  abbrev pub Answer : Result CimdRegistration → Result CimdRegistration → Type 0
  Answer (ok r) outcome =
      (enabled ≡ true)
      × (rate_guard answers ≡ ok tt)
      × (outcome ≡ ok r)
      × (cimd_redirect_matches parse_url redirect_uri r ≡ true)
  Answer (err e) outcome =
      (e ≡ cimd_generic_error) ⊎ ((e ≡ rate_limited) × (rate_guard answers ≡ err rate_limited))

  matched_tells :
      enabled ≡ true
      → rate_guard answers ≡ ok tt
      → (outcome : Result CimdRegistration) → ((e : Thrown) → outcome ≡ err e → is_oauth e ≡ false)
      → Answer (matched parse_url redirect_uri outcome).0 outcome
        × IsListed (matched parse_url redirect_uri outcome).1
  unfolding map_cimd_error
  matched_tells on free (err e) h = rw (h e refl) (inl refl, audit_reason-IsListed e)
  matched_tells on free (ok r) h =
      elim (Bool-cases (cimd_redirect_matches parse_url redirect_uri r)) [
        | inl fits ↦ rw fits ((on, free, refl, fits), tt)
        | inr differs ↦ rw differs (
          unfold is_oauth in inl refl,
          unfold is_oauth in audit_reason-IsListed (cimd document_invalid),
        )
      ]

  resolve-matched :
      enabled ≡ true
      → rate_guard answers ≡ ok tt
      → (outcome : Result CimdRegistration)
      → resolve enabled answers parse_url redirect_uri outcome
        ≡ matched parse_url redirect_uri outcome
  unfolding resolve
  resolve-matched on free outcome = ground (arith, on, free)

  -- A resolution whose fetch throws no OAuth error succeeds only where the service is enabled, no limiter
  -- denies, and the registration matches the redirect URI; every failure is the one generic error, or the
  -- rate limit's, whatever went wrong; and what is audited is one of the fixed reasons.
  pub resolve_tells_nothing :
      (outcome : Result CimdRegistration)
      → ((e : Thrown) → outcome ≡ err e → is_oauth e ≡ false)
      → Answer (resolve enabled answers parse_url redirect_uri outcome).0 outcome
        × IsListed (resolve enabled answers parse_url redirect_uri outcome).1
  unfolding resolve
  resolve_tells_nothing outcome h = elim (Bool-cases enabled) [
    | inr off ↦ rw off (inl refl, tt)
    | inl on ↦ elim (rate_guard-cases answers) [
      | inr denied ↦ rw (on, denied) (inr (refl, denied), tt)
      | inl free ↦ rw (resolve-matched on free outcome) (matched_tells on free outcome h)
    ]
  ]
