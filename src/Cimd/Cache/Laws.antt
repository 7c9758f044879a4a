-- ===== src/Cimd/Cache/Laws.antt =====
-- cimd/cache.ts: what the cache serves, and what a clock that goes back does.
use mcp_sso.Common.{
  ℕ, ◌<◌, String, List, [], Option, none, some, Bool, true, false, ◌≡◌, inl, inr, refl, arith,
  Option-cases, Memᴰ,
}
use mcp_sso.Dict.{get}
use mcp_sso.Cimd.Cache.{
  CacheEntry, CimdSuccessCache, new_cache, moves_on, observe, read_observed, cache_get, cache_set,
  CacheCall, stores, cache_run,
}
use mcp_sso.Cimd.Cache.Valid.{run-new-IsValid}

module _ {V : Type 0} where
  read_hit :
      (key : String) (now : Option ℕ) (b : Bool) (x : V) (c : CimdSuccessCache V)
      → (read_observed key now (b, c)).0 ≡ some x
      → (t : ℕ) × (now ≡ some t)
        × (b ≡ true)
        × (e : CacheEntry V) × (get key c.entries ≡ some e)
        × (e.registration ≡ x)
        × (t < e.expires_at_ms)
  read_hit key none b x c h = cc
  read_hit key (some t) false x c h = cc
  read_hit key (some t) true x c h = elim (Option-cases (get key c.entries)) [
    | inl miss ↦ ground (arith, miss)
    | inr (e, hit) ↦ (t, refl, refl, e, hit, ground (arith, hit), ground (arith, hit))
  ]

  observe-get :
      (key : String) (now : Option ℕ) (e : CacheEntry V) (c : CimdSuccessCache V)
      → get key (observe now c).1.entries ≡ some e
      → (observe now c).0 ≡ true
      → (get key c.entries ≡ some e) × (moves_on c.last_observed_now_ms now ≡ true)
  unfolding observe
  observe-get key now e c h k = ground arith

  -- What the cache serves, after any history, was stored under that very key by a call of the history
  -- with an expiry that lies ahead, and the clock has not gone back.
  pub hit_sound :
      (max : ℕ) (ks : List (CacheCall V)) (key : String) (now : Option ℕ) (x : V)
      → 0 < max
      → (cache_get key now (cache_run ks (new_cache max))).0 ≡ some x
      → (t expires : ℕ) × (now ≡ some t)
        × (t < expires)
        × (moves_on (cache_run ks (new_cache max)).last_observed_now_ms now ≡ true)
        × ((stored : Option ℕ) × Memᴰ (stores key x expires stored) ks)
  unfolding cache_get
  hit_sound max ks key now x h served =
      let c = cache_run ks (new_cache max) in
      let (t, read, trusted, e, found, same, ahead) =
        read_hit key now (observe now c).0 x (observe now c).1 served in
      let (held, moves) = observe-get key now e c found trusted in
      (
        t,
        e.expires_at_ms,
        read,
        ahead,
        moves,
        rw (← same) ((run-new-IsValid max ks h).known key e held),
      )

  -- A reading that is not finite, or before the prior one, empties the cache.
  pub backwards_clears :
      (key : String) (now : Option ℕ) (c : CimdSuccessCache V)
      → moves_on c.last_observed_now_ms now ≡ false
      → ((cache_get key now c).0 ≡ none)
        × ((cache_get key now c).1.entries ≡ [])
        × ((x : V) (expires : ℕ) → (cache_set key x expires now c).entries ≡ [])
  unfolding cache_get cache_set observe
  backwards_clears key none c h = (ground arith, ground arith, λ x expires. ground arith)
  backwards_clears key (some t) c h = (ground arith, ground arith, λ x expires. ground arith)
