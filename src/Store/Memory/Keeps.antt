-- ===== src/Store/Memory/Keeps.antt =====
-- store/memory.ts: every call keeps a MemoryStore well formed.
use mcp_sso.Common.{
  ℕ, String, List, [], ◌∷◌, Option, none, some, Bool, true, ◌≡◌, refl, ◌⊎◌, inl, inr, arith, eq_iff,
  any,
}
use mcp_sso.Dict.{Dict, get, retain, values, IsMap}
use mcp_sso.Dict.Laws.{get-retain, retain-IsMap}
use mcp_sso.Store.{SaveAuthCodeInput}
use mcp_sso.Store.Memory.State.{MemoryStore, StoredRefresh, StoredFamily, create_memory_store}
use mcp_sso.Store.Memory.Codes.{
  rotate_store_instance_id, commit_consent_approval, save_auth_code, consume_auth_code,
  consume_consent_jti,
}
use mcp_sso.Store.Memory.Expiry.{sweep_expired, sweep, drop_empty, has_member}
use mcp_sso.Store.Memory.SingleUse.{commit_atomic}
use mcp_sso.Store.Memory.Frame.{find-frame, find_scopes-frame}
use mcp_sso.Store.Memory.Family.{get-drop_empty, drop_empty-IsMap}
use mcp_sso.Store.Memory.Valid.{IsValid, IsFiled}
use mcp_sso.Store.Memory.{
  Call, rotates_id, commits, saves_code, consumes_code, consumes_jti, saves_token, rotates, revokes,
  finds, finds_scopes, sweeps, closes, step, run, close,
}
use mcp_sso.Store.Memory.Writes.{save-IsValid, revoke-IsValid, rotate-IsValid}

pub get-has_member :
    (hash : String) (t : StoredRefresh) (d : Dict StoredRefresh)
    → get hash d ≡ some t
    → has_member (values d) t.family_id ≡ true
unfolding get values has_member any
get-has_member hash t [] e = cc
get-has_member hash t ((k, w) ∷ d) e =
    ground (arith, get-has_member hash t d, eq_iff w.family_id t.family_id)

get-of-retain :
    (p : StoredRefresh → Bool) (hash : String) (t : StoredRefresh) (d : Dict StoredRefresh)
    → IsMap d
    → get hash (retain p d) ≡ some t
    → get hash d ≡ some t
get-of-retain p hash t d m e = ground (arith, get-retain p hash d m)

swept-IsFiled :
    (kept : Dict StoredRefresh) (d : Dict StoredFamily) (hash : String) (t : StoredRefresh)
    → get hash kept ≡ some t
    → IsFiled d hash t
    → IsFiled (drop_empty (values kept) d) hash t
swept-IsFiled kept d hash t e h = record {
  own_hash = h.own_hash;
  family =
      ground
        (arith, h.family, get-drop_empty (values kept) t.family_id d, get-has_member hash t kept e);
  resource = h.resource;
  generation = h.generation;
}

sweep-IsValid : (now : String) (s : MemoryStore) → IsValid s → IsValid (sweep now s)
unfolding sweep
sweep-IsValid now s v = record {
  tokens_map = retain-IsMap _ s.refresh_tokens v.tokens_map;
  families_map = drop_empty-IsMap _ s.families v.families_map;
  filed = λ hash t e.
      swept-IsFiled _ s.families hash t e
        (v.filed hash t (get-of-retain _ hash t s.refresh_tokens v.tokens_map e));
  marks = λ id f e. v.marks id f (ground (arith, rw get-drop_empty at e));
}

-- The calls that touch neither tokens nor families.
abbrev SameTokens : MemoryStore → MemoryStore → Type 0
SameTokens s s' = (s'.refresh_tokens ≡ s.refresh_tokens) × (s'.families ≡ s.families)

SameTokens-IsValid : (s s' : MemoryStore) → SameTokens s s' → IsValid s → IsValid s'
SameTokens-IsValid s s' (p, q) v = record {
  tokens_map = rw p v.tokens_map;
  families_map = rw q v.families_map;
  filed = λ hash t e. rw q (v.filed hash t (rw (← p) e));
  marks = λ id f e. v.marks id f (rw (← q) e);
}

commit-SameTokens :
    (expected jti t : String) (code : SaveAuthCodeInput) (s : MemoryStore)
    → SameTokens s (commit_consent_approval expected jti t code s).1
commit-SameTokens expected jti t code s = ground (arith, commit_atomic expected jti t code s)

consume-SameTokens :
    (hash now : String) (g : Option ℕ) (r : Option String) (s : MemoryStore)
    → SameTokens s (consume_auth_code hash now g r s).1
unfolding consume_auth_code
consume-SameTokens hash now g r s = ground arith

sweep_cases :
    (now : String) (s : MemoryStore)
    → ((sweep_expired now s).1 ≡ s) ⊎ ((sweep_expired now s).1 ≡ sweep now s)
unfolding sweep_expired
sweep_cases now s = ground arith

get-nil {ℓ} : {V : Type ℓ} (k : String) → get {V = V} k [] ≡ none
unfolding get
get-nil k = refl

-- Every call, whether it returns or throws, keeps the store well formed.
pub step-IsValid : (c : Call) (s : MemoryStore) → IsValid s → IsValid (step c s)
unfolding step
step-IsValid (rotates_id fresh) s v =
    SameTokens-IsValid s _ (unfold rotate_store_instance_id in ground arith) v
step-IsValid (commits e k t code) s v = SameTokens-IsValid s _ (commit-SameTokens e k t code s) v
step-IsValid (saves_code code) s v =
    SameTokens-IsValid s _ (unfold save_auth_code in ground arith) v
step-IsValid (consumes_code k now g r) s v =
    SameTokens-IsValid s _ (consume-SameTokens k now g r s) v
step-IsValid (consumes_jti k t) s v =
    SameTokens-IsValid s _ (unfold consume_consent_jti in ground arith) v
step-IsValid (saves_token t) s v = save-IsValid t s v
step-IsValid (rotates k next now g r) s v = rotate-IsValid k next now g r s v
step-IsValid (revokes k now r) s v = revoke-IsValid k now r s v
step-IsValid (finds k) s v = rw find-frame v
step-IsValid (finds_scopes a b now g r) s v = rw find_scopes-frame v
step-IsValid (sweeps now) s v = elim (sweep_cases now s) [
  | inl same ↦ rw same v
  | inr after ↦ rw after (sweep-IsValid now s v)
]
step-IsValid closes s v = SameTokens-IsValid s _ (unfold close in ground arith) v

create-IsValid : (id : String) → IsValid (create_memory_store id)
create-IsValid id = record {
  tokens_map = tt;
  families_map = tt;
  filed = λ hash t e. cc (get-nil {V = StoredRefresh} hash);
  marks = λ k f e. cc (get-nil {V = StoredFamily} k);
}

run-IsValid : (cs : List Call) (s : MemoryStore) → IsValid s → IsValid (run cs s)
unfolding run
run-IsValid [] s v = v
run-IsValid (c ∷ cs) s v = run-IsValid cs (step c s) (step-IsValid c s v)

-- Any history of calls on a new store, whatever its arguments, leaves it well formed: each row
-- stands under its own hash, in a family that is there and has the row's generation and resource.
pub run-create-IsValid : (id : String) (cs : List Call) → IsValid (run cs (create_memory_store id))
run-create-IsValid id cs = run-IsValid cs (create_memory_store id) (create-IsValid id)
