-- ===== src/Cimd/Cache/Bounds.antt =====
-- cimd/cache.ts: the bounds of the computed expiry.
use mcp_sso.Common.{
  ℕ, ◌+◌, ◌*◌, ◌≤◌, ◌<◌, String, List, [], ◌∷◌, Option, none, some, true, false, ◌≡◌, arith,
  Option-cases, inl, inr,
}
use mcp_sso.Cimd.Cache.Expiry.{
  CimdCacheView, DateValue, absent, malformed, at, parse_max_age, parse_age, has_vary_star,
  expiry_of, compute_cache_expiry_ms, long_enough, apparent_age, effective, read_directives,
  split_directives,
}

-- The bounds of an expiry: ahead of the response, and, with the ages added, no later than the lifetime
-- and the cap allow.
pub record IsBounded (max_age age cap t0 t1 : ℕ) (date : DateValue) (e : ℕ) : Type 0 where
  pub forward : t0 ≤ t1
  pub ahead : t1 < e
  pub by_lifetime : e + age * 1000 ≤ t0 + max_age * 1000
  pub by_cap : e + age * 1000 ≤ t0 + cap * 1000
  pub by_date : e + apparent_age date t1 ≤ t1 + max_age * 1000

expiry_of-IsBounded :
    (max_age age cap t0 t1 : ℕ) (date : DateValue) (e : ℕ)
    → expiry_of max_age age cap t0 t1 date ≡ some e
    → IsBounded max_age age cap t0 t1 date e
unfolding expiry_of
expiry_of-IsBounded max_age age cap t0 t1 absent e h = record {
  forward = ground arith;
  ahead = ground arith;
  by_lifetime = ground arith;
  by_cap = ground arith;
  by_date = ground arith;
}
expiry_of-IsBounded max_age age cap t0 t1 malformed e h = ground arith
expiry_of-IsBounded max_age age cap t0 t1 (at d) e h = record {
  forward = ground arith;
  ahead = ground arith;
  by_lifetime = ground arith;
  by_cap = ground arith;
  by_date = ground arith;
}

long_enough_min : (n : Option ℕ) (m : ℕ) → long_enough n ≡ some m → 60 ≤ m
long_enough_min none m h = cc
long_enough_min (some n) m h = ground arith

parse_max_age_min :
    (lower : String → String) (values : Option (List String)) (n : ℕ)
    → parse_max_age lower values ≡ some n
    → 60 ≤ n
unfolding parse_max_age
parse_max_age_min lower none n h = cc
parse_max_age_min lower (some []) n h = cc
parse_max_age_min lower (some (v ∷ [])) n h =
    long_enough_min
      (effective
        (read_directives lower (split_directives v) (record { max_age = none; s_maxage = none })))
      n h
parse_max_age_min lower (some (v ∷ w ∷ ws)) n h = cc

-- An expiry is given only for a view that is valid and without a `Vary: *`, from one stated lifetime of
-- 60 seconds or more and one readable age, under a clock that did not go back. It lies ahead of the
-- response; with the stated age added it is no later than the lifetime, and than the cap, after the
-- request; with the age that the `Date` header shows added it is no later than the lifetime after the
-- response.
pub expiry-IsBounded :
    (lower : String → String) (view : CimdCacheView) (cap t0 t1 : ℕ) (date : DateValue) (e : ℕ)
    → compute_cache_expiry_ms lower (some view) cap t0 t1 date ≡ some e
    → (max_age age : ℕ) × (view.valid ≡ true)
      × (has_vary_star view.vary ≡ false)
      × (parse_max_age lower view.cache_control ≡ some max_age)
      × (parse_age view.age ≡ some age)
      × (60 ≤ max_age)
      × IsBounded max_age age cap t0 t1 date e
unfolding compute_cache_expiry_ms
expiry-IsBounded lower view cap t0 t1 date e h =
    elim (Option-cases (parse_max_age lower view.cache_control)) [
      | inl absent_age ↦ ground (arith, absent_age)
      | inr (n, p) ↦ elim (Option-cases (parse_age view.age)) [
        | inl bad ↦ ground (arith, bad, p)
        | inr (a, q) ↦ (
          n,
          a,
          ground (arith, p, q),
          ground (arith, p, q),
          p,
          q,
          parse_max_age_min lower view.cache_control n p,
          expiry_of-IsBounded n a cap t0 t1 date e (ground (arith, p, q)),
        )
      ]
    ]
