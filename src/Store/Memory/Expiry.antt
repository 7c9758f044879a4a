-- ===== src/Store/Memory/Expiry.antt =====
-- store/memory.ts: findGrantedScopes and sweepExpired.
use mcp_sso.Common.{
  ℕ, String, List, [], ◌∷◌, ◌++◌, Option, none, some, Bool, false, not, ◌&&◌, ◌==◌, if◌then◌else◌,
  text_lt, includes, meets, is_none, any,
}
use mcp_sso.Exec.{lift, gets, modify, ◌>>◌}
use mcp_sso.Dict.{Dict, get, retain, values}
use mcp_sso.Store.{meets_generation}
use mcp_sso.Store.Checks.{assert_store_subject, assert_utc_iso_timestamp}
use mcp_sso.Store.Memory.State.{StoredRefresh, StoredFamily, MemoryStore, Op, truthy, ensure_open}

abbrev pub family_active : Option ℕ → Option String → StoredRefresh → Option StoredFamily → Bool
family_active generation resource t none = false
family_active generation resource t (some f) =
    is_none f.revoked_at
    && meets_generation generation t.grant_generation
    && meets resource t.resource
    && meets resource f.resource

-- The tokens that `findGrantedScopes` reads.
unfoldable pub is_active :
    String → String → String → Option ℕ → Option String → Dict StoredFamily → StoredRefresh → Bool
is_active subject client_id now generation resource families t =
    t.subject == subject
    && t.client_id == client_id
    && not (truthy t.consumed_at)
    && text_lt now t.expires_at
    && family_active generation resource t (get t.family_id families)

-- `for (const s of t.scopes) if (!out.includes(s)) out.push(s)`
unfoldable pub merge_scopes : List String → List String → List String
merge_scopes out [] = out
merge_scopes out (s ∷ ss) = merge_scopes (if includes out s then out else out ++ s ∷ []) ss

unfoldable pub collect_scopes :
    (StoredRefresh → Bool) → List String → List StoredRefresh → List String
unfolding merge_scopes
collect_scopes active out [] = out
collect_scopes active out (t ∷ ts) =
    collect_scopes active (if active t then merge_scopes out t.scopes else out) ts

unfoldable pub find_granted_scopes :
    String → String → String → Option ℕ → Option String → Op (List String)
unfolding ensure_open collect_scopes is_active
find_granted_scopes subject client_id now generation resource = do
  ensure_open
  lift (assert_store_subject subject "subject")
  lift (assert_utc_iso_timestamp now "nowIso")
  gets (λ s.
      collect_scopes (is_active subject client_id now generation resource s.families) []
        (values s.refresh_tokens))

abbrev pub advance : Option String → String → Option String
advance none now = some now
advance (some w) now = if text_lt w now then some now else some w

-- Some member of the family is still valid.
unfoldable pub family_valid : String → List StoredRefresh → String → Bool
unfolding any
family_valid now tokens id = any (λ m. m.family_id == id && not (text_lt m.expires_at now)) tokens

-- `liveFamilies.has(familyId)`
unfoldable pub has_member : List StoredRefresh → String → Bool
unfolding any
has_member tokens id = any (λ t. t.family_id == id) tokens

-- Families that no token is left of are dropped.
unfoldable pub drop_empty : List StoredRefresh → Dict StoredFamily → Dict StoredFamily
unfolding has_member
drop_empty tokens [] = []
drop_empty tokens ((id, f) ∷ d) =
    let rest = drop_empty tokens d in if has_member tokens id then (id, f) ∷ rest else rest

unfoldable pub sweep : String → MemoryStore → MemoryStore
unfolding drop_empty family_valid
sweep now s =
    let kept =
      retain (λ t. family_valid now (values s.refresh_tokens) t.family_id) s.refresh_tokens in
    record s {
      swept_through = advance s.swept_through now;
      auth_codes = retain (λ c. not (text_lt c.expires_at now)) s.auth_codes;
      consent_jtis = retain (λ t. not (text_lt t now)) s.consent_jtis;
      refresh_tokens = kept;
      families = drop_empty (values kept) s.families;
    }

unfoldable pub sweep_expired : String → Op (Unit {0})
unfolding ensure_open sweep
sweep_expired now = do ensure_open; lift (assert_utc_iso_timestamp now "nowIso"); modify (sweep now)
