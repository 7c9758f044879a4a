-- ===== src/Cimd/Cache/Room.antt =====
-- cimd/cache.ts: the room that storing makes, and which entries go for it.
use mcp_sso.Common.{
  ℕ, suc, ◌<◌, String, [], ◌∷◌, ◌++◌, Option, none, some, true, ◌≡◌, ◌⊎◌, inl, inr, refl, ap, arith,
  eq_iff, leb, length, length-append, Bool-cases,
}
use mcp_sso.Dict.{Dict, get, remove, IsMap}
use mcp_sso.Dict.Laws.{put-fresh, get-remove}
use mcp_sso.Cimd.Cache.{CacheEntry, CimdSuccessCache, moves_on, observe, make_room, cache_set}

module _ {V : Type 0} where
  get-suffix :
      (k : String) (v : V) (older d : Dict V)
      → IsMap (older ++ d)
      → get k d ≡ some v
      → get k (older ++ d) ≡ some v
  unfolding get
  get-suffix k v [] d m h = h
  get-suffix k v ((j, w) ∷ older) d m h =
      ground (arith, get-suffix k v older d m.1 h, eq_iff j k, m.0)

  suffix-IsMap : (older d : Dict V) → IsMap (older ++ d) → IsMap d
  suffix-IsMap [] d m = m
  suffix-IsMap (e ∷ older) d m = suffix-IsMap older d m.1

module _ {V : Type 0} where
  -- What `make_room` drops is a first part, and only as much as the bound asks for.
  pub record MakesRoom (max : ℕ) (es : Dict (CacheEntry V)) (older kept : Dict (CacheEntry V))
      : Type 0 where
    pub split : es ≡ older ++ kept
    pub bounded : length kept < max
    pub needed : (older ≡ []) ⊎ (suc (length kept) ≡ max)

  pub make_room-MakesRoom :
      (max : ℕ) (es : Dict (CacheEntry V))
      → 0 < max
      → (older : Dict (CacheEntry V)) × MakesRoom max es older (make_room max es)
  unfolding make_room
  make_room-MakesRoom max [] h = ([], record { split = refl; bounded = h; needed = inl refl })
  make_room-MakesRoom max (e ∷ es) h = elim (Bool-cases (leb max (suc (length es)))) [
    | inr fits ↦ rw fits ([], record { split = refl; bounded = ground arith; needed = inl refl })
    | inl full ↦
        let (older, m) = make_room-MakesRoom max es h in
        rw full (
          e ∷ older,
          record {
            split = ap (◌∷◌ e) m.split;
            bounded = m.bounded;
            needed = elim m.needed [
              | inr exact ↦ inr exact
              | inl all ↦ inr (
                  ground (
                    arith,
                    m.bounded,
                    ap length m.split,
                    length-append older (make_room max es),
                    ap length all,
                  ))
            ];
          },
        )
  ]

  abbrev pub stored_entry : V → ℕ → CacheEntry V
  stored_entry v expires = record { registration = v; expires_at_ms = expires }

  make_room-get-none :
      (max : ℕ) (key : String) (es : Dict (CacheEntry V))
      → get key es ≡ none
      → get key (make_room max es) ≡ none
  unfolding make_room get
  make_room-get-none max key [] h = refl
  make_room-get-none max key ((k, e) ∷ es) h = ground (arith, make_room-get-none max key es)

  pub make_room-absent :
      (key : String) (c : CimdSuccessCache V)
      → IsMap c.entries
      → get key (make_room c.max_entries (remove key c.entries)) ≡ none
  make_room-absent key c m =
      make_room-get-none c.max_entries key (remove key c.entries)
        (ground (arith, get-remove key key c.entries, eq_iff key key))

  -- Storing under a clock that moves on puts the new entry at the end, behind the entries of the other
  -- keys in their order of use; of those only the oldest are dropped, and only where the cache is full.
  pub evicts_oldest :
      (key : String) (v : V) (expires : ℕ) (now : Option ℕ) (c : CimdSuccessCache V)
      → 0 < c.max_entries
      → IsMap c.entries
      → moves_on c.last_observed_now_ms now ≡ true
      → (older kept : Dict (CacheEntry V)) × (remove key c.entries ≡ older ++ kept)
        × ((cache_set key v expires now c).entries ≡ kept ++ (key, stored_entry v expires) ∷ [])
        × ((older ≡ []) ⊎ (length (cache_set key v expires now c).entries ≡ c.max_entries))
  unfolding cache_set observe
  evicts_oldest key v expires now c h m moves =
      let kept = make_room c.max_entries (remove key c.entries) in
      let (older, made) = make_room-MakesRoom c.max_entries (remove key c.entries) h in
      let fresh : get key kept ≡ none = make_room-absent key c m in
      let placed = put-fresh key (stored_entry v expires) kept fresh in
      (
        older,
        kept,
        made.split,
        ground (arith, moves, placed),
        elim made.needed [
          | inl all ↦ inl all
          | inr exact ↦ inr (
              ground (
                arith,
                moves,
                exact,
                ap length placed,
                length-append kept ((key, stored_entry v expires) ∷ []),
              ))
        ],
      )
