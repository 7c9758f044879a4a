-- ===== src/Cimd/Cache/Valid.antt =====
-- cimd/cache.ts: the cache stays bounded, with entries that were stored.
use mcp_sso.Common.{
  ℕ, ◌≤◌, ◌<◌, String, List, [], ◌∷◌, Option, none, some, Bool, true, false, ◌==◌, ◌≡◌, inl, inr,
  refl, ap, arith, eq_iff, ltb, length, length-append, Bool-cases, Option-cases, Memᴰ,
}
use mcp_sso.Dict.{Dict, get, put, remove, IsMap}
use mcp_sso.Dict.Laws.{put-fresh, get-put, get-remove, put-IsMap, remove-IsMap, length-remove-le}
use mcp_sso.Cimd.Cache.{
  CacheEntry, CimdSuccessCache, new_cache, moves_on, observe, read_observed, cache_get, make_room,
  store_observed, cache_set, CacheCall, reads, stores, cache_step, cache_run,
}
use mcp_sso.Cimd.Cache.Room.{make_room-MakesRoom, make_room-absent, stored_entry}

module _ {V : Type 0} where
  length-remove-lt :
      (key : String) (e : CacheEntry V) (d : Dict (CacheEntry V))
      → get key d ≡ some e
      → length (remove key d) < length d
  unfolding get remove
  length-remove-lt key e [] h = cc
  length-remove-lt key e ((k, w) ∷ d) h =
      ground (arith, length-remove-lt key e d, length-remove-le key d, eq_iff k key)

  make_room-IsMap : (max : ℕ) (es : Dict (CacheEntry V)) → IsMap es → IsMap (make_room max es)
  unfolding make_room
  make_room-IsMap max [] m = tt
  make_room-IsMap max ((k, e) ∷ es) m = ground (arith, make_room-IsMap max es m.1)

  make_room-get-some :
      (max : ℕ) (key : String) (e : CacheEntry V) (es : Dict (CacheEntry V))
      → IsMap es
      → get key (make_room max es) ≡ some e
      → get key es ≡ some e
  unfolding make_room get
  make_room-get-some max key e [] m h = cc
  make_room-get-some max key e ((k, w) ∷ es) m h =
      ground (arith, make_room-get-some max key e es m.1, m.0, eq_iff k key)

  -- Some call among those made stored the entry under the key.
  abbrev pub IsStored : List (CacheCall V) → String → CacheEntry V → Type 0
  IsStored ks key e = (now : Option ℕ) × Memᴰ (stores key e.registration e.expires_at_ms now) ks

  -- Each key once, no more entries than the bound, and each of them stored by a call.
  pub record IsValid (ks : List (CacheCall V)) (c : CimdSuccessCache V) : Type 0 where
    pub distinct : IsMap c.entries
    pub bounded : length c.entries ≤ c.max_entries
    pub known : (key : String) (e : CacheEntry V) → get key c.entries ≡ some e → IsStored ks key e

  IsValid-remove :
      (ks : List (CacheCall V)) (key : String) (c : CimdSuccessCache V)
      → IsValid ks c
      → IsValid ks (record c { entries = remove key c.entries })
  IsValid-remove ks key c v = record {
    distinct = remove-IsMap key c.entries v.distinct;
    bounded = omega (arith, v.bounded, length-remove-le key c.entries);
    known = λ k e h. v.known k e (ground (arith, get-remove key k c.entries));
  }

  IsValid-touch :
      (ks : List (CacheCall V)) (key : String) (e : CacheEntry V) (c : CimdSuccessCache V)
      → get key c.entries ≡ some e
      → IsValid ks c
      → IsValid ks (record c { entries = put key e (remove key c.entries) })
  IsValid-touch ks key e c found v =
      let gone : get key (remove key c.entries) ≡ none =
        ground (arith, get-remove key key c.entries, eq_iff key key) in
      record {
        distinct = put-IsMap key e (remove key c.entries) (remove-IsMap key c.entries v.distinct);
        bounded = omega (
          arith,
          v.bounded,
          length-remove-lt key e c.entries found,
          ap length (put-fresh key e (remove key c.entries) gone),
          length-append (remove key c.entries) ((key, e) ∷ []),
        );
        known = λ k f h. v.known k f (
            ground (
              arith,
              h,
              found,
              get-put key k e (remove key c.entries),
              get-remove key k c.entries,
              eq_iff key k,
            ));
      }

  IsValid-empty :
      (ks : List (CacheCall V)) (max : ℕ) (last : Option ℕ)
      → IsValid ks (record (new_cache max) { last_observed_now_ms = last })
  unfolding get
  IsValid-empty ks max last = record { distinct = tt; bounded = omega arith; known = λ k e h. cc }

  IsValid-observe :
      (ks : List (CacheCall V)) (now : Option ℕ) (c : CimdSuccessCache V)
      → IsValid ks c
      → IsValid ks (observe now c).1
  unfolding observe
  IsValid-observe ks now c v = elim (Bool-cases (moves_on c.last_observed_now_ms now)) [
    | inl moves ↦ rw moves (record { distinct = v.distinct; bounded = v.bounded; known = v.known })
    | inr back ↦ rw back (IsValid-empty ks c.max_entries now)
  ]

  IsValid-read :
      (ks : List (CacheCall V)) (key : String) (now : Option ℕ) (b : Bool) (c : CimdSuccessCache V)
      → IsValid ks c
      → IsValid ks (read_observed key now (b, c)).1
  IsValid-read ks key none b c v = v
  IsValid-read ks key (some t) false c v = v
  IsValid-read ks key (some t) true c v = elim (Option-cases (get key c.entries)) [
    | inl miss ↦ rw miss v
    | inr (e, hit) ↦ elim (Bool-cases (ltb t e.expires_at_ms)) [
      | inl fresh ↦ rw (hit, fresh) (IsValid-touch ks key e c hit v)
      | inr stale ↦ rw (hit, stale) (IsValid-remove ks key c v)
    ]
  ]

  IsValid-store :
      (ks : List (CacheCall V)) (key : String) (x : V) (expires : ℕ) (now : Option ℕ) (b : Bool)
      (c : CimdSuccessCache V)
      → 0 < c.max_entries
      → Memᴰ (stores key x expires now) ks
      → IsValid ks c
      → IsValid ks (store_observed key x expires (b, c))
  IsValid-store ks key x expires now false c h called v = v
  IsValid-store ks key x expires now true c h called v =
      let kept = make_room c.max_entries (remove key c.entries) in
      let (older, made) = make_room-MakesRoom c.max_entries (remove key c.entries) h in
      let fresh : get key kept ≡ none = make_room-absent key c v.distinct in
      let removed = remove-IsMap key c.entries v.distinct in
      let e = stored_entry x expires in
      record {
        distinct =
            put-IsMap key e kept (make_room-IsMap c.max_entries (remove key c.entries) removed);
        bounded = omega (
          arith,
          made.bounded,
          ap length (put-fresh key e kept fresh),
          length-append kept ((key, e) ∷ []),
        );
        known = λ k f q. elim (Bool-cases (key == k)) [
          | inl same ↦
              let p : key ≡ k = (eq_iff key k).0 same in
              let at : e ≡ f = ground (arith, q, get-put key k e kept, same) in
              rw (← p, ← at) (now, called)
          | inr differs ↦ v.known k f (
              ground (
                arith,
                get-remove key k c.entries,
                differs,
                make_room-get-some c.max_entries k f (remove key c.entries) removed,
                q,
                get-put key k e kept,
              ))
        ];
      }

  max-observe :
      (now : Option ℕ) (c : CimdSuccessCache V) → (observe now c).1.max_entries ≡ c.max_entries
  unfolding observe
  max-observe now c = ground arith

  max-step :
      (k : CacheCall V) (c : CimdSuccessCache V) → (cache_step k c).max_entries ≡ c.max_entries
  unfolding cache_step cache_get cache_set observe
  max-step (reads key none) c = ground arith
  max-step (reads key (some t)) c = ground arith
  max-step (stores key v expires now) c = ground arith

  step-IsValid :
      (ks : List (CacheCall V)) (k : CacheCall V) (c : CimdSuccessCache V)
      → 0 < c.max_entries
      → Memᴰ k ks
      → IsValid ks c
      → IsValid ks (cache_step k c)
  unfolding cache_step cache_get cache_set
  step-IsValid ks (reads key now) c h called v =
      IsValid-read ks key now (observe now c).0 (observe now c).1 (IsValid-observe ks now c v)
  step-IsValid ks (stores key x expires now) c h called v =
      IsValid-store ks key x expires now (observe now c).0 (observe now c).1
        (rw (max-observe now c) h) called (IsValid-observe ks now c v)

  run-IsValid :
      (all ks : List (CacheCall V)) (c : CimdSuccessCache V)
      → 0 < c.max_entries
      → ((k : CacheCall V) → Memᴰ k ks → Memᴰ k all)
      → IsValid all c
      → IsValid all (cache_run ks c)
  unfolding cache_run
  run-IsValid all [] c h sub v = v
  run-IsValid all (k ∷ ks) c h sub v =
      run-IsValid all ks (cache_step k c) (rw (max-step k c) h) (λ j m. sub j (Memᴰ.tail m))
        (step-IsValid all k c h (sub k (Memᴰ.head refl)) v)

  -- Any history of a new cache leaves it with each key once, no more entries than its bound, and only
  -- entries that a call of the history stored.
  pub run-new-IsValid :
      (max : ℕ) (ks : List (CacheCall V)) → 0 < max → IsValid ks (cache_run ks (new_cache max))
  run-new-IsValid max ks h =
      run-IsValid ks ks (new_cache max) h (λ k m. m) (IsValid-empty ks max none)
