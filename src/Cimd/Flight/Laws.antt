-- ===== src/Cimd/Flight/Laws.antt =====
-- cimd/resolve.ts and cimd/anti-oracle.ts: the bounds of the resolver, and what a client learns of a failure.
use mcp_sso.Common.{
  ℕ, ◌+◌, ◌-◌, ◌≤◌, ◌<◌, String, List, [], ◌∷◌, Option, none, some, true, false, ◌==◌, ◌≡◌, refl,
  ◌⊎◌, inl, inr, arith, eq_iff, leb, length, includes, nat_eq, Bool-cases, Option-cases,
  if◌then◌else◌,
}
use mcp_sso.Dict.{get, has, IsMap}
use mcp_sso.Dict.Laws.{get-put, get-remove, put-IsMap, remove-IsMap, length-put, length-remove-le}
use mcp_sso.Cimd.Cache.{CimdSuccessCache, cache_get}
use mcp_sso.Cimd.Waiters.{WaiterCounts, or_else, try_acquire, release}
use mcp_sso.Cimd.Registration.{CimdRegistration}
use mcp_sso.Cimd.Flight.{
  CimdResolver, new_resolver, served, refused, follows, fetches, Reply, drop_one, registration_for,
  after_cache, follow, start, Event, arrives, stores, settles, resumes, resolver_step, resolver_run,
}

-- How often a key is listed.
unfoldable pub count : String → List String → ℕ
count key [] = 0
count key (k ∷ ks) = (if k == key then 1 else 0) + count key ks

count-drop_one :
    (key j : String) (ks : List String)
    → includes ks key ≡ true
    → count j (drop_one key ks) ≡ count j ks - (if key == j then 1 else 0)
unfolding count drop_one includes
count-drop_one key j [] h = cc
count-drop_one key j (k ∷ ks) h =
    ground (arith, count-drop_one key j ks, eq_iff k key, eq_iff k j, eq_iff key j)

count-includes : (key : String) (ks : List String) → includes ks key ≡ true → 0 < count key ks
unfolding count includes
count-includes key [] h = cc
count-includes key (k ∷ ks) h = ground (arith, count-includes key ks)

held : (o : Option ℕ) → 0 < or_else 0 o → (n : ℕ) × (o ≡ some n)
held none h = absurd (omega (arith, h))
held (some n) h = (n, refl)

get-release :
    (key j : String) (n : ℕ) (w : WaiterCounts)
    → get key w ≡ some n
    → get j (release key w)
      ≡ (if key == j then if nat_eq (n - 1) 0 then none else some (n - 1) else get j w)
unfolding release
get-release key j n w h = ground (arith, h, get-remove key j w, get-put key j (n - 1) w)

module _ (max_in_flight max_waiters : ℕ) where
  -- Each fetch once and no more than allowed; the counts are those of the waiting followers, each below
  -- its bound, and none is kept at zero.
  pub record IsBounded (s : CimdResolver) : Type 0 where
    pub distinct : IsMap s.in_flight
    pub flights : length s.in_flight ≤ max_in_flight
    pub counted : (key : String) → or_else 0 (get key s.waiters) ≡ count key s.parked
    pub followers : (key : String) → count key s.parked ≤ max_waiters
    pub positive : (key : String) (n : ℕ) → get key s.waiters ≡ some n → 0 < n

  new_resolver-IsBounded : IsBounded new_resolver
  unfolding get count
  new_resolver-IsBounded = record {
    distinct = tt;
    flights = omega arith;
    counted = λ key. refl;
    followers = λ key. omega arith;
    positive = λ key n h. cc;
  }

  follow-IsBounded :
      (key : String) (s : CimdResolver)
      → IsBounded s
      → IsBounded (follow max_in_flight max_waiters key (try_acquire key max_waiters s.waiters) s).1
  unfolding try_acquire
  follow-IsBounded key s v = elim (Bool-cases (leb max_waiters (or_else 0 (get key s.waiters)))) [
    | inl full ↦ rw full (record {
      distinct = v.distinct;
      flights = v.flights;
      counted = v.counted;
      followers = v.followers;
      positive = v.positive;
    })
    | inr room ↦ rw room (record {
      distinct = v.distinct;
      flights = v.flights;
      counted = λ j.
          unfold count in
          ground (
            arith,
            v.counted j,
            v.counted key,
            get-put key j (or_else 0 (get key s.waiters) + 1) s.waiters,
            eq_iff key j,
          );
      followers =
          λ j. unfold count in ground (arith, v.followers j, v.counted key, room, eq_iff key j);
      positive = λ j n h.
          ground
            (arith, v.positive j n, get-put key j (or_else 0 (get key s.waiters) + 1) s.waiters);
    })
  ]

  release-IsBounded :
      (key : String) (s : CimdResolver)
      → includes s.parked key ≡ true
      → IsBounded s
      → IsBounded (record s { waiters = release key s.waiters; parked = drop_one key s.parked })
  release-IsBounded key s inside v =
      let (n, found) =
        held (get key s.waiters)
          (omega (arith, v.counted key, count-includes key s.parked inside)) in
      record {
        distinct = v.distinct;
        flights = v.flights;
        counted = λ j. ground (
          arith,
          v.counted j,
          v.counted key,
          found,
          get-release key j n s.waiters found,
          count-drop_one key j s.parked inside,
          eq_iff key j,
        );
        followers = λ j. ground (arith, v.followers j, count-drop_one key j s.parked inside);
        positive =
            λ j m h. ground (arith, h, v.positive j m, found, get-release key j n s.waiters found);
      }

  start-IsBounded :
      (key : String) (s : CimdResolver)
      → get key s.in_flight ≡ none
      → IsBounded s
      → IsBounded (start max_in_flight max_waiters key s).1
  start-IsBounded key s fresh v = elim (Bool-cases (leb max_in_flight (length s.in_flight))) [
    | inl full ↦ rw full v
    | inr room ↦ rw room (record {
      distinct = put-IsMap key tt s.in_flight v.distinct;
      flights = ground (arith, room, length-put key tt s.in_flight, fresh);
      counted = v.counted;
      followers = v.followers;
      positive = v.positive;
    })
  ]

  with_cache :
      (c : CimdSuccessCache CimdRegistration) (s : CimdResolver)
      → IsBounded s
      → IsBounded (record s { cache = c })
  with_cache c s v = record {
    distinct = v.distinct;
    flights = v.flights;
    counted = v.counted;
    followers = v.followers;
    positive = v.positive;
  }

  after_cache-IsBounded :
      (key : String) (o : Option CimdRegistration) (c : CimdSuccessCache CimdRegistration)
      (s : CimdResolver)
      → IsBounded s
      → IsBounded (after_cache max_in_flight max_waiters key (o, c) s).1
  after_cache-IsBounded key (some r) c s v = with_cache c s v
  after_cache-IsBounded key none c s v = elim (Option-cases (get key s.in_flight)) [
    | inl fresh ↦ rw fresh (start-IsBounded key (record s { cache = c }) fresh (with_cache c s v))
    | inr (u, busy) ↦ rw busy (follow-IsBounded key (record s { cache = c }) (with_cache c s v))
  ]

  step-IsBounded :
      (e : Event) (s : CimdResolver)
      → IsBounded s
      → IsBounded (resolver_step max_in_flight max_waiters e s)
  unfolding resolver_step registration_for
  step-IsBounded (arrives key now) s v =
      after_cache-IsBounded key (cache_get key now s.cache).0 (cache_get key now s.cache).1 s v
  step-IsBounded (stores key r expires now) s v = with_cache _ s v
  step-IsBounded (settles key) s v = record {
    distinct = remove-IsMap key s.in_flight v.distinct;
    flights = omega (arith, v.flights, length-remove-le key s.in_flight);
    counted = v.counted;
    followers = v.followers;
    positive = v.positive;
  }
  step-IsBounded (resumes key) s v = elim (Bool-cases (includes s.parked key)) [
    | inl waits ↦ rw waits (release-IsBounded key s waits v)
    | inr gone ↦ rw gone v
  ]

  run-IsBounded :
      (es : List Event) (s : CimdResolver)
      → IsBounded s
      → IsBounded (resolver_run max_in_flight max_waiters es s)
  unfolding resolver_run
  run-IsBounded [] s v = v
  run-IsBounded (e ∷ es) s v =
      run-IsBounded es (resolver_step max_in_flight max_waiters e s) (step-IsBounded e s v)

  -- A cached registration is served. Without one, an id in flight has its caller follow while there is
  -- room for a follower, and any other id is fetched while there is room for a fetch.
  abbrev pub Replies : String → (now : Option ℕ) → CimdResolver → Reply → Type 0
  Replies key now s reply =
      ((r : CimdRegistration) × ((cache_get key now s.cache).0 ≡ some r) × (reply ≡ served r))
      ⊎ (((cache_get key now s.cache).0 ≡ none)
          × (((has key s.in_flight ≡ true)
                × (((count key s.parked < max_waiters) × (reply ≡ follows))
                    ⊎ ((count key s.parked ≡ max_waiters) × (reply ≡ refused))))
              ⊎ ((has key s.in_flight ≡ false)
                  × (((length s.in_flight < max_in_flight) × (reply ≡ fetches))
                      ⊎ ((max_in_flight ≤ length s.in_flight) × (reply ≡ refused))))))

  reply-cases :
      (key : String) (now : Option ℕ) (s : CimdResolver)
      → IsBounded s
      → let reply = (registration_for max_in_flight max_waiters key now s).0 in
        Replies key now s reply
  unfolding registration_for try_acquire
  reply-cases key now s v = elim (Option-cases (cache_get key now s.cache).0) [
    | inr (r, hit) ↦ inl (r, hit, ground (arith, hit))
    | inl miss ↦ inr (
      miss,
      elim (Option-cases (get key s.in_flight)) [
        | inr (u, busy) ↦ inl (
          ground (arith, busy),
          elim (Bool-cases (leb max_waiters (or_else 0 (get key s.waiters)))) [
            | inl full ↦ inr (
              ground (arith, full, v.counted key, v.followers key),
              ground (arith, miss, busy, full),
            )
            | inr room ↦ inl (ground (arith, room, v.counted key), ground (arith, miss, busy, room))
          ],
        )
        | inl fresh ↦ inr (
          ground (arith, fresh),
          elim (Bool-cases (leb max_in_flight (length s.in_flight))) [
            | inl full ↦ inr (ground (arith, full), ground (arith, miss, fresh, full))
            | inr room ↦ inl (ground (arith, room), ground (arith, miss, fresh, room))
          ],
        )
      ],
    )
  ]

  -- Whatever callers, stored documents, settled fetches and resumed followers come in whatever order, a
  -- new resolver has each client id in flight once, no more fetches and no more followers of one id than
  -- allowed, and counts that are exactly the followers that wait.
  pub run-new_resolver-IsBounded :
      (es : List Event) → IsBounded (resolver_run max_in_flight max_waiters es new_resolver)
  run-new_resolver-IsBounded es = run-IsBounded es new_resolver new_resolver-IsBounded

  -- After any events, a caller whose id is in the cache is served from it. Otherwise, where the id is
  -- in flight, the caller follows while fewer followers than allowed wait on it and is refused where
  -- they are at their bound; and where the id is not in flight, the caller fetches while fewer
  -- fetches than allowed are in flight, and is refused where they are not.
  pub single_flight :
      (es : List Event) (key : String) (now : Option ℕ)
      → let s = resolver_run max_in_flight max_waiters es new_resolver in
        let reply = (registration_for max_in_flight max_waiters key now s).0 in
        Replies key now s reply
  single_flight es key now =
      reply-cases key now (resolver_run max_in_flight max_waiters es new_resolver)
        (run-new_resolver-IsBounded es)
