-- ===== src/Store/Memory/Writes.antt =====
-- store/memory.ts: saving, revoking and rotating tokens keep a MemoryStore well formed.
use mcp_sso.Common.{
  ℕ, String, Option, none, some, true, ◌==◌, ◌≡◌, ◌≢◌, refl, inl, inr, arith, eq_iff, Bool-cases,
}
use mathlib.Core.Path.{subst, subst₂}
use mcp_sso.Dict.{Dict, get, put, IsMap}
use mcp_sso.Dict.Laws.{get-put, put-IsMap}
use mcp_sso.Errors.{ok}
use mcp_sso.Store.{SaveRefreshTokenInput}
use mcp_sso.Store.Checks.{validate_refresh_token}
use mcp_sso.Store.Memory.State.{MemoryStore, StoredRefresh, StoredFamily}
use mcp_sso.Store.Memory.Tokens.{
  save_refresh_token, revoke_refresh_token_family, revoke_found, revoke_at, stamp_token, family_for,
  add_family,
}
use mcp_sso.Store.Memory.Rotation.{rotate_refresh_token, consume_token, successor}
use mcp_sso.Store.Memory.Saving.{Inserts, save_cases, checked-IsNormal, revoke_cases}
use mcp_sso.Store.Memory.Rotating.{rotate_cases}
use mcp_sso.Store.Memory.Family.{iso-ne-empty}
use mcp_sso.Store.Memory.Valid.{IsValid, IsFiled, insert-IsFiled, stamped-IsFiled}

-- The lookup after a write, by the two cases of the key.
put_cases {ℓ} :
    {V : Type 0} (P : V → Type ℓ) (k j : String) (v w : V) (d : Dict V)
    → get j (put k v d) ≡ some w
    → (k ≡ j → v ≡ w → P w)
    → (get j d ≡ some w → P w)
    → P w
put_cases P k j v w d e same other = elim (Bool-cases (k == j)) [
  | inl hit ↦ same ((eq_iff k j).0 hit) (ground (arith, get-put k j v d))
  | inr miss ↦ other (ground (arith, get-put k j v d))
]

add_family-IsMap :
    (row : StoredRefresh) (found : Option StoredFamily) (d : Dict StoredFamily)
    → IsMap d
    → IsMap (add_family row found d)
add_family-IsMap row none d h = put-IsMap row.family_id (family_for row) d h
add_family-IsMap row (some f) d h = h

abbrev IsMarked : StoredFamily → Type 0
IsMarked f = f.revoked_at ≢ some ""

abbrev Marks : Dict StoredFamily → Type 0
Marks d = (id : String) (f : StoredFamily) → get id d ≡ some f → IsMarked f

put-Marks :
    (k : String) (f : StoredFamily) (d : Dict StoredFamily)
    → IsMarked f
    → Marks d
    → Marks (put k f d)
put-Marks k f d m h id f' e = put_cases IsMarked k id f f' d e (λ p q. subst IsMarked q m) (h id f')

add_family-Marks :
    (row : StoredRefresh) (found : Option StoredFamily) (d : Dict StoredFamily)
    → Marks d
    → Marks (add_family row found d)
add_family-Marks row none d h = put-Marks row.family_id (family_for row) d (λ p. cc) h
add_family-Marks row (some f) d h = h

insert-IsValid :
    (input : SaveRefreshTokenInput) (s s' : MemoryStore)
    → validate_refresh_token input true ≡ ok tt
    → Inserts (stamp_token input) s s'
    → IsValid s
    → IsValid s'
insert-IsValid input s s' checked ins v = rw ins.after (record {
  tokens_map = put-IsMap input.token_hash (stamp_token input) s.refresh_tokens v.tokens_map;
  families_map =
      add_family-IsMap (stamp_token input) (get input.family_id s.families) s.families
        v.families_map;
  filed = λ hash t e.
      put_cases
        (IsFiled (add_family (stamp_token input) (get input.family_id s.families) s.families) hash)
        input.token_hash hash (stamp_token input) t s.refresh_tokens e
        (λ p q. subst₂ (IsFiled _) p q (stamped-IsFiled input s.families checked ins.admitted))
        (λ q. insert-IsFiled (stamp_token input) t hash s.families (v.filed hash t q));
  marks = add_family-Marks (stamp_token input) (get input.family_id s.families) s.families v.marks;
})

pub save-IsValid :
    (t : SaveRefreshTokenInput) (s : MemoryStore) → IsValid s → IsValid (save_refresh_token t s).1
save-IsValid t s v = elim (save_cases t s) [
  | inl (same, _) ↦ rw same v
  | inr (input, e, _, ins) ↦ insert-IsValid input s _ (checked-IsNormal t input e).1 ins v
]

-- Marking a row as consumed, or a family as revoked, moves no row.
consumed-IsFiled :
    (now hash : String) (t : StoredRefresh) (d : Dict StoredFamily)
    → IsFiled d hash t
    → IsFiled d hash (record t { consumed_at = some now })
consumed-IsFiled now hash t d h = record {
  own_hash = h.own_hash;
  family = ground (arith, h.family);
  resource = h.resource;
  generation = h.generation;
}

consume-IsValid :
    (hash now : String) (t : StoredRefresh) (s : MemoryStore)
    → get hash s.refresh_tokens ≡ some t
    → IsValid s
    → IsValid (consume_token hash now t s)
consume-IsValid hash now t s row v = record {
  tokens_map = put-IsMap hash _ s.refresh_tokens v.tokens_map;
  families_map = v.families_map;
  filed = λ k t' e.
      put_cases (IsFiled s.families k) hash k (record t { consumed_at = some now }) t'
        s.refresh_tokens e
        (λ p q.
          subst₂ (IsFiled s.families) p q
            (consumed-IsFiled now hash t s.families (v.filed hash t row)))
        (v.filed k t');
  marks = v.marks;
}

revoked-IsFiled :
    (k now : String) (f : StoredFamily) (d : Dict StoredFamily) (hash : String) (t : StoredRefresh)
    (r : Option String)
    → get k d ≡ some f
    → IsFiled d hash t
    → IsFiled (put k (revoke_at now r f) d) hash t
revoked-IsFiled k now f d hash t r e h = record {
  own_hash = h.own_hash;
  family =
      ground (arith, h.family, get-put k t.family_id (revoke_at now r f) d, eq_iff k t.family_id);
  resource = h.resource;
  generation = h.generation;
}

revoke_found-IsValid :
    (k now : String) (r : Option String) (found : Option StoredFamily) (s : MemoryStore)
    → get k s.families ≡ found
    → now ≢ ""
    → IsValid s
    → IsValid (revoke_found k now r found s)
revoke_found-IsValid k now r none s e n v = v
revoke_found-IsValid k now r (some f) s e n v = record {
  tokens_map = v.tokens_map;
  families_map = put-IsMap k (revoke_at now r f) s.families v.families_map;
  filed = λ hash t q. revoked-IsFiled k now f s.families hash t r e (v.filed hash t q);
  marks = put-Marks k (revoke_at now r f) s.families (λ p. ground (arith, v.marks k f e)) v.marks;
}

pub revoke-IsValid :
    (k now : String) (r : Option String) (s : MemoryStore)
    → IsValid s
    → IsValid (revoke_refresh_token_family k now r s).1
revoke-IsValid k now r s v = elim (revoke_cases k now r s) [
  | inl same ↦ rw same v
  | inr (dated, after) ↦ rw after (
      revoke_found-IsValid k now r (get k s.families) s refl (iso-ne-empty now "revokedAtIso" dated)
        v)
]

pub rotate-IsValid :
    (hash : String) (given : SaveRefreshTokenInput) (now : String) (g : Option ℕ)
    (r : Option String) (s : MemoryStore)
    → IsValid s
    → IsValid (rotate_refresh_token hash given now g r s).1
rotate-IsValid hash given now g r s v = elim (rotate_cases hash now g r s given) [
  | inl (same, _) ↦ rw same v
  | inr (next, _, inl (t, f, found, used, after, _)) ↦
      rw after (revoke-IsValid t.family_id now none s v)
  | inr (next, _, inr (t, f, found, live, after, _)) ↦ rw after (
      save-IsValid (successor next t) (consume_token hash now t s)
        (consume-IsValid hash now t s found.row v))
]
