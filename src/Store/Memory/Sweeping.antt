-- ===== src/Store/Memory/Sweeping.antt =====
-- store/memory.ts: what a sweep keeps and what it drops.
use mcp_sso.Common.{
  String, [], ◌∷◌, none, some, true, false, ◌≡◌, arith, eq_iff, if◌then◌else◌, any, text_lt,
}
use mcp_sso.Errors.{ok}
use mcp_sso.Dict.{Dict, get, values}
use mcp_sso.Dict.Laws.{get-retain}
use mcp_sso.Store.Memory.State.{MemoryStore, StoredRefresh}
use mcp_sso.Store.Memory.Expiry.{sweep, sweep_expired, family_valid}
use mcp_sso.Store.Memory.Family.{get-drop_empty}
use mcp_sso.Store.Memory.Valid.{IsValid}
use mcp_sso.Store.Memory.Keeps.{get-has_member}

-- One member that is in date makes the family valid.
family_valid-member :
    (now hash : String) (m : StoredRefresh) (id : String) (d : Dict StoredRefresh)
    → get hash d ≡ some m
    → m.family_id ≡ id
    → text_lt m.expires_at now ≡ false
    → family_valid now (values d) id ≡ true
unfolding get values family_valid any
family_valid-member now hash m id [] e f h = cc
family_valid-member now hash m id ((k, w) ∷ d) e f h =
    ground (arith, family_valid-member now hash m id d, eq_iff w.family_id id)

-- A token, consumed or not, survives the sweep exactly while its family has a member in date.
pub sweep-tokens :
    (now hash : String) (t : StoredRefresh) (s : MemoryStore)
    → IsValid s
    → get hash s.refresh_tokens ≡ some t
    → get hash (sweep now s).refresh_tokens
      ≡ (if family_valid now (values s.refresh_tokens) t.family_id then some t else none)
unfolding sweep
sweep-tokens now hash t s v e = ground (
  arith,
  get-retain (λ (u : StoredRefresh). family_valid now (values s.refresh_tokens) u.family_id) hash
      s.refresh_tokens v.tokens_map,
)

-- The family of a token that is left is left as it was.
sweep-family :
    (now hash : String) (t : StoredRefresh) (s : MemoryStore)
    → get hash (sweep now s).refresh_tokens ≡ some t
    → get t.family_id (sweep now s).families ≡ get t.family_id s.families
unfolding sweep
sweep-family now hash t s e = rw get-drop_empty (ground (arith, get-has_member hash t _ e))

-- The replay signal survives a sweep: while some member of a family is in date, every token of the
-- family, consumed ones too, and the record of the family with its revocation stay as they were.
pub sweep_keeps_family :
    (now hash live : String) (t m : StoredRefresh) (s : MemoryStore)
    → IsValid s
    → (sweep_expired now s).0 ≡ ok tt
    → get hash s.refresh_tokens ≡ some t
    → get live s.refresh_tokens ≡ some m
    → m.family_id ≡ t.family_id
    → text_lt m.expires_at now ≡ false
    → (get hash (sweep_expired now s).1.refresh_tokens ≡ some t)
      × (get t.family_id (sweep_expired now s).1.families ≡ get t.family_id s.families)
unfolding sweep_expired
sweep_keeps_family now hash live t m s v done row alive same dated =
    let kept = sweep-tokens now hash t s v row in
    let valid = family_valid-member now live m t.family_id s.refresh_tokens alive same dated in
    let still : get hash (sweep now s).refresh_tokens ≡ some t = ground (arith, kept, valid) in
    (ground (arith, still), ground (arith, sweep-family now hash t s still))
