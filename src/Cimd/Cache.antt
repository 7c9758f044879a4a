-- ===== src/Cimd/Cache.antt =====
-- cimd/cache.ts: the bounded cache of validated documents, in the order of use.
-- A clock reading is `none` where cacheClockObservation gives NaN.
pub mod Room
pub mod Valid
pub mod Laws
pub mod Bounds
pub mod Expiry
mod Tests
use mcp_sso.Common.{
  ℕ, String, List, [], ◌∷◌, Option, none, some, Bool, true, false, leb, ltb, length, if◌then◌else◌,
}
use mcp_sso.Dict.{Dict, get, put, remove}

abbrev pub default_max_entries : ℕ
default_max_entries = 256

pub record CacheEntry (V : Type 0) : Type 0 where
  pub registration : V
  pub expires_at_ms : ℕ

pub record CimdSuccessCache (V : Type 0) : Type 0 where
  pub entries : Dict (CacheEntry V)
  pub max_entries : ℕ
  pub last_observed_now_ms : Option ℕ

-- A reading that is finite and not before the prior one.
abbrev pub moves_on : Option ℕ → Option ℕ → Bool
moves_on prior none = false
moves_on none (some now) = true
moves_on (some prior) (some now) = leb prior now

module _ {V : Type 0} where
  abbrev pub new_cache : ℕ → CimdSuccessCache V
  new_cache max = record { entries = []; max_entries = max; last_observed_now_ms = none }

  -- `observe`: whether the clock may be trusted, and the cache with its entries kept or cleared.
  unfoldable pub observe : Option ℕ → CimdSuccessCache V → Bool × CimdSuccessCache V
  observe now c =
      if moves_on c.last_observed_now_ms now
      then (true, record c { last_observed_now_ms = now })
      else (false, record c { last_observed_now_ms = now; entries = [] })

  -- `get` behind the observation, on the entry that was found.
  abbrev pub read_entry :
      String → ℕ → Option (CacheEntry V) → CimdSuccessCache V → Option V × CimdSuccessCache V
  read_entry key now none c = (none, c)
  read_entry key now (some e) c =
      if ltb now e.expires_at_ms
      then (some e.registration, record c { entries = put key e (remove key c.entries) })
      else (none, record c { entries = remove key c.entries })

  abbrev pub read_observed :
      String → Option ℕ → Bool × CimdSuccessCache V → Option V × CimdSuccessCache V
  read_observed key (some now) (true, c) = read_entry key now (get key c.entries) c
  read_observed key _ (_, c) = (none, c)

  unfoldable pub cache_get : String → Option ℕ → CimdSuccessCache V → Option V × CimdSuccessCache V
  unfolding observe
  cache_get key now c = read_observed key now (observe now c)

  -- `while (this.entries.size >= this.maxEntries)`: the oldest entry goes.
  unfoldable pub make_room : ℕ → Dict (CacheEntry V) → Dict (CacheEntry V)
  make_room max [] = []
  make_room max (e ∷ es) =
      let rest = make_room max es in if leb max (length (e ∷ es)) then rest else e ∷ es

  abbrev pub store_observed : String → V → ℕ → Bool × CimdSuccessCache V → CimdSuccessCache V
  store_observed key v expires (false, c) = c
  store_observed key v expires (true, c) = record c {
    entries =
        put key (record { registration = v; expires_at_ms = expires })
          (make_room c.max_entries (remove key c.entries));
  }

  -- `set`, with a finite expiry.
  unfoldable pub cache_set : String → V → ℕ → Option ℕ → CimdSuccessCache V → CimdSuccessCache V
  unfolding observe make_room
  cache_set key v expires now c = store_observed key v expires (observe now c)

pub data CacheCall (V : Type 0) : Type 0 where
  reads : (key : String) (now : Option ℕ) → CacheCall V
  stores : (key : String) → V → (expires : ℕ) (now : Option ℕ) → CacheCall V

unfoldable pub cache_step : {V : Type 0} → CacheCall V → CimdSuccessCache V → CimdSuccessCache V
unfolding cache_get cache_set
cache_step (reads key now) c = (cache_get key now c).1
cache_step (stores key v expires now) c = cache_set key v expires now c

unfoldable pub cache_run :
    {V : Type 0} → List (CacheCall V) → CimdSuccessCache V → CimdSuccessCache V
unfolding cache_step
cache_run [] c = c
cache_run (k ∷ ks) c = cache_run ks (cache_step k c)
