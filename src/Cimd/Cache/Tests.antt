-- ===== src/Cimd/Cache/Tests.antt =====
-- Runs of the cache, and its theorems at them.
use mcp_sso.Common.{
  ℕ, String, List, [], ◌∷◌, ◌++◌, Option, none, some, true, false, ◌≡◌, ◌≤◌, ◌<◌, ◌⊎◌, refl, arith,
  length, Memᴰ,
}
use mcp_sso.Dict.{remove, get, put}
use mcp_sso.Cimd.Cache.{
  CimdSuccessCache, CacheCall, reads, stores, new_cache, cache_get, cache_set, cache_run, moves_on,
}
use mcp_sso.Cimd.Cache.Expiry.{
  CimdCacheView, at, parse_max_age, parse_age, has_vary_star, compute_cache_expiry_ms,
}
use mcp_sso.Cimd.Cache.Room.{evicts_oldest, stored_entry}
use mcp_sso.Cimd.Cache.Valid.{IsValid, run-new-IsValid}
use mcp_sso.Cimd.Cache.Laws.{hit_sound, backwards_clears}
use mcp_sso.Cimd.Cache.Bounds.{IsBounded, expiry-IsBounded}

abbrev history : List (CacheCall String)
history = stores "a" "A" 100 (some 10) ∷ stores "b" "B" 100 (some 20) ∷ reads "a" (some 30) ∷ []

abbrev used : CimdSuccessCache String
used = cache_run history (new_cache 2)

-- `a` was read last, so `b` goes for `c`.
evicts_example : (cache_get "b" (some 50) (cache_set "c" "C" 100 (some 40) used)).0 ≡ none
unfolding cache_run cache_get cache_set remove get put
evicts_example = refl

hits : (cache_get "a" (some 50) used).0 ≡ some "A"
unfolding cache_run cache_get remove get put
hits = refl

stale : (cache_get "a" (some 100) used).0 ≡ none
unfolding cache_run cache_get remove get put
stale = refl

evicts_oldest_example :
    (older kept : _) × (remove "c" used.entries ≡ older ++ kept)
    × ((cache_set "c" "C" 100 (some 40) used).entries ≡ kept ++ ("c", stored_entry "C" 100) ∷ [])
    × ((older ≡ []) ⊎ (length (cache_set "c" "C" 100 (some 40) used).entries ≡ used.max_entries))
unfolding cache_run remove get put
evicts_oldest_example =
    evicts_oldest "c" "C" 100 (some 40) used (omega arith)
      (run-new-IsValid 2 history (omega arith)).distinct refl

run-new-IsValid_example : IsValid history (cache_run history (new_cache 2))
run-new-IsValid_example = run-new-IsValid 2 history (omega arith)

hit_sound_example :
    (t expires : ℕ) × (some 50 ≡ some t)
    × (t < expires)
    × (moves_on (cache_run history (new_cache 2)).last_observed_now_ms (some 50) ≡ true)
    × ((stored : Option ℕ) × Memᴰ (stores "a" "A" expires stored) history)
hit_sound_example = hit_sound 2 history "a" (some 50) "A" (omega arith) hits

backwards_clears_example :
    ((cache_get "a" (some 5) used).0 ≡ none)
    × ((cache_get "a" (some 5) used).1.entries ≡ [])
    × ((x : String) (expires : ℕ) → (cache_set "a" x expires (some 5) used).entries ≡ [])
unfolding cache_run remove get put
backwards_clears_example = backwards_clears "a" (some 5) used refl

abbrev view : CimdCacheView
view = record {
  valid = true;
  cache_control = some ("public, max-age=120, x=\"a,b\"" ∷ []);
  vary = none;
  age = some ("5" ∷ []);
}

abbrev same : String → String
same s = s

computes : compute_cache_expiry_ms same (some view) 3600 1000000 1000100 (at 990000) ≡ some 1110000
unfolding compute_cache_expiry_ms
computes = refl

expiry-IsBounded_example :
    (max_age age : ℕ) × (view.valid ≡ true)
    × (has_vary_star view.vary ≡ false)
    × (parse_max_age same view.cache_control ≡ some max_age)
    × (parse_age view.age ≡ some age)
    × (60 ≤ max_age)
    × IsBounded max_age age 3600 1000000 1000100 (at 990000) 1110000
expiry-IsBounded_example =
    expiry-IsBounded same view 3600 1000000 1000100 (at 990000) 1110000 computes
