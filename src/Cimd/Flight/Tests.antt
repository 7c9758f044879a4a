-- ===== src/Cimd/Flight/Tests.antt =====
-- Three callers of one client id, with one follower allowed, and a refused document.
use mcp_sso.Common.{
  String, List, [], ◌∷◌, Option, none, some, true, false, ◌≡◌, refl, arith, includes,
}
use mcp_sso.Errors.{Thrown, Result, err, cimd, document_invalid, is_oauth}
use mcp_sso.Dict.{get, put, remove}
use mcp_sso.Redirect.Entry.{Url}
use mcp_sso.Cimd.Cache.{cache_get, observe}
use mcp_sso.Cimd.Waiters.{try_acquire, release}
use mcp_sso.Cimd.Registration.{CimdRegistration}
use mcp_sso.Cimd.Flight.{
  CimdResolver, new_resolver, refused, fetches, registration_for, Event, arrives, settles, resumes,
  resolver_run, resolve,
}
use mcp_sso.Cimd.Flight.Laws.{IsBounded, Replies, run-new_resolver-IsBounded, single_flight}
use mcp_sso.Cimd.Flight.Oracle.{Answer, IsListed, resolve_tells_nothing}

abbrev history : List Event
history = arrives "a" (some 1) ∷ arrives "a" (some 2) ∷ []

abbrev busy : CimdResolver
busy = resolver_run 8 1 history new_resolver

third_refused : (registration_for 8 1 "a" (some 3) busy).0 ≡ refused
unfolding resolver_run registration_for cache_get observe get put try_acquire
third_refused = refl

other_fetches : (registration_for 8 1 "b" (some 3) busy).0 ≡ fetches
unfolding resolver_run registration_for cache_get observe get put try_acquire
other_fetches = refl

resumed : (resolver_run 8 1 (settles "a" ∷ resumes "a" ∷ []) busy).waiters ≡ []
unfolding resolver_run registration_for cache_get observe get put remove try_acquire release
    includes
resumed = refl

run-new_resolver-IsBounded_example : IsBounded 8 1 busy
run-new_resolver-IsBounded_example = run-new_resolver-IsBounded 8 1 history

single_flight_example : Replies 8 1 "a" (some 3) busy (registration_for 8 1 "a" (some 3) busy).0
single_flight_example = single_flight 8 1 history "a" (some 3)

abbrev no_url : String → Option Url
no_url s = none

abbrev bad_document : Result CimdRegistration
bad_document = err (cimd document_invalid)

thrown_is_own : (e : Thrown) → bad_document ≡ err e → is_oauth e ≡ false
unfolding is_oauth
thrown_is_own e h = ground arith

resolve_tells_nothing_example :
    Answer true [] no_url "https://app.example/cb"
      (resolve true [] no_url "https://app.example/cb" bad_document).0
      bad_document
    × IsListed (resolve true [] no_url "https://app.example/cb" bad_document).1
resolve_tells_nothing_example =
    resolve_tells_nothing true [] no_url "https://app.example/cb" bad_document thrown_is_own
