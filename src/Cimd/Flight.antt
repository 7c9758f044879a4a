-- ===== src/Cimd/Flight.antt =====
-- cimd/resolve.ts and cimd/anti-oracle.ts: one fetch for each client id, bounded fetches and followers,
-- and the one error that a client sees.
-- A caller's steps between two awaits are one event. The awaits themselves, the fetcher and the audit
-- are outside; what the fetch gave is an event's argument.
pub mod Laws
pub mod Oracle
mod Tests
use mcp_sso.Common.{
  ℕ, String, List, [], ◌∷◌, Option, none, some, Bool, true, false, not, ◌==◌, any, leb, length,
  includes, if◌then◌else◌,
}
use mcp_sso.Errors.{
  Thrown, Result, ok, err, cimd, oauth_error, is_oauth, CimdReason, url_admission_denied,
  dns_failed, ip_blocked, redirect_refused, status_not_200, content_type, encoding, size_exceeded,
  timeout, fetch_failed, document_invalid, overloaded,
}
use mcp_sso.Dict.{Dict, get, has, put, remove}
use mcp_sso.Redirect.Entry.{Url}
use mcp_sso.Cimd.Cache.{CimdSuccessCache, new_cache, default_max_entries, cache_get, cache_set}
use mcp_sso.Cimd.Waiters.{WaiterCounts, try_acquire, release}
use mcp_sso.Cimd.Registration.{CimdRegistration, cimd_redirect_matches}
use mcp_sso.Authorize.Client.{cimd_generic_error}

-- `parked` lists the followers that wait, which the source does not keep.
pub record CimdResolver : Type 0 where
  pub cache : CimdSuccessCache CimdRegistration
  pub in_flight : Dict (Unit {0})
  pub waiters : WaiterCounts
  pub parked : List String

abbrev pub new_resolver : CimdResolver
new_resolver = record {
  cache = new_cache default_max_entries;
  in_flight = [];
  waiters = [];
  parked = [];
}

-- What a caller gets before its first await.
pub data Reply : Type 0 where
  served : CimdRegistration → Reply
  refused follows fetches : Reply

-- One follower fewer.
unfoldable pub drop_one : String → List String → List String
drop_one key [] = []
drop_one key (k ∷ ks) = let rest = drop_one key ks in if k == key then ks else k ∷ rest

-- `arrives`: a caller asks. `stores`: the end of `#fetchAndCache` with an expiry. `settles`: the leader's
-- `finally`. `resumes`: a follower's `finally`.
pub data Event : Type 0 where
  arrives : (key : String) (now : Option ℕ) → Event
  stores : (key : String) → CimdRegistration → (expires : ℕ) (now : Option ℕ) → Event
  settles resumes : (key : String) → Event

module _ (max_in_flight max_waiters : ℕ) where
  abbrev pub follow : String → Bool × WaiterCounts → CimdResolver → Reply × CimdResolver
  follow key (true, counts) s = (follows, record s { waiters = counts; parked = key ∷ s.parked })
  follow key (false, counts) s = (refused, record s { waiters = counts })

  abbrev pub start : String → CimdResolver → Reply × CimdResolver
  start key s =
      if leb max_in_flight (length s.in_flight)
      then (refused, s)
      else (fetches, record s { in_flight = put key tt s.in_flight })

  abbrev pub after_cache :
      String
      → Option CimdRegistration × CimdSuccessCache CimdRegistration
      → CimdResolver
      → Reply × CimdResolver
  after_cache key (some r, c) s = (served r, record s { cache = c })
  after_cache key (none, c) s =
      let s' = record s { cache = c } in
      if has key s.in_flight
      then follow key (try_acquire key max_waiters s.waiters) s'
      else start key s'

  -- `#registrationFor`, up to its await.
  unfoldable pub registration_for : String → (now : Option ℕ) → CimdResolver → Reply × CimdResolver
  unfolding cache_get get put try_acquire
  registration_for key now s = after_cache key (cache_get key now s.cache) s

  -- Only a follower that waits resumes.
  unfoldable pub resolver_step : Event → CimdResolver → CimdResolver
  unfolding registration_for cache_set release drop_one includes remove
  resolver_step (arrives key now) s = (registration_for key now s).1
  resolver_step (stores key r expires now) s = record s {
    cache = cache_set key r expires now s.cache;
  }
  resolver_step (settles key) s = record s { in_flight = remove key s.in_flight }
  resolver_step (resumes key) s =
      if includes s.parked key
      then record s { waiters = release key s.waiters; parked = drop_one key s.parked }
      else s

  unfoldable pub resolver_run : List Event → CimdResolver → CimdResolver
  unfolding resolver_step
  resolver_run [] s = s
  resolver_run (e ∷ es) s = resolver_run es (resolver_step e s)

-- `mapCimdError`: whatever was thrown.
unfoldable pub map_cimd_error : Thrown → Thrown
map_cimd_error e = cimd_generic_error

abbrev pub reason_text : CimdReason → String
reason_text url_admission_denied = "url_admission_denied"
reason_text dns_failed = "dns_failed"
reason_text ip_blocked = "ip_blocked"
reason_text redirect_refused = "redirect_refused"
reason_text status_not_200 = "status_not_200"
reason_text content_type = "content_type"
reason_text encoding = "encoding"
reason_text size_exceeded = "size_exceeded"
reason_text timeout = "timeout"
reason_text fetch_failed = "fetch_failed"
reason_text document_invalid = "document_invalid"
reason_text overloaded = "overloaded"

unfoldable pub audit_reason : Thrown → String
audit_reason (cimd reason) = reason_text reason
audit_reason _ = "fetch_failed"

abbrev pub rate_limited : Thrown
rate_limited = oauth_error "temporarily_unavailable" "Rate limit exceeded; retry later" 429

-- An answer of a limiter, `none` where it throws: the guard then lets the request pass.
abbrev denies : Option Bool → Bool
denies none = false
denies (some b) = not b

-- `#rateGuard` on the answers of the limiters that it asks, one or two.
unfoldable pub rate_guard : List (Option Bool) → Result (Unit {0})
unfolding any
rate_guard answers = if any denies answers then err rate_limited else ok tt

-- The outcome, and the reason that is audited where it is a failure.
abbrev pub failed : Thrown → Result CimdRegistration × Option String
failed e = if is_oauth e then (err e, none) else (err (map_cimd_error e), some (audit_reason e))

abbrev pub matched :
    (parse_url : String → Option Url)
    → (redirect_uri : String) → Result CimdRegistration
    → Result CimdRegistration × Option String
matched parse_url redirect_uri (err e) = failed e
matched parse_url redirect_uri (ok r) =
    if cimd_redirect_matches parse_url redirect_uri r
    then (ok r, none)
    else failed (cimd document_invalid)

abbrev pub guarded :
    (parse_url : String → Option Url)
    → (redirect_uri : String) → Result CimdRegistration
    → Result (Unit {0})
    → Result CimdRegistration × Option String
guarded parse_url redirect_uri outcome (err e) = (err e, none)
guarded parse_url redirect_uri outcome (ok _) = matched parse_url redirect_uri outcome

-- `resolve`, where `#registrationFor` gave or threw the outcome.
unfoldable pub resolve :
    (enabled : Bool)
    → List (Option Bool)
    → (parse_url : String → Option Url) → (redirect_uri : String) → Result CimdRegistration
    → Result CimdRegistration × Option String
unfolding rate_guard is_oauth map_cimd_error audit_reason
resolve enabled answers parse_url redirect_uri outcome =
    if not enabled
    then (err cimd_generic_error, none)
    else guarded parse_url redirect_uri outcome (rate_guard answers)
