-- ===== src/Store/Memory/Revocation.antt =====
-- store/memory.ts: after a revocation, or after a replay, no token of the family is rotated.
use mcp_sso.Common.{
  ℕ, String, List, Option, none, some, true, false, ◌≡◌, ◌≢◌, refl, ◌⊎◌, inl, inr, is_none, arith,
  eq_iff, eq_refl, All, meets,
}
use mcp_sso.Errors.{ok}
use mcp_sso.Dict.{get}
use mcp_sso.Dict.Laws.{get-put}
use mcp_sso.Store.{SaveRefreshTokenInput}
use mcp_sso.Store.Checks.{assert_utc_iso_timestamp, validate_rotation}
use mcp_sso.Store.Memory.State.{MemoryStore, StoredRefresh, StoredFamily, truthy}
use mcp_sso.Store.Memory.Tokens.{revoke_found, revoke_refresh_token_family, revoke_at}
use mcp_sso.Store.Memory.Rotation.{
  rotate_refresh_token, rotate_found, rotate_replayed, checked_next,
}
use mcp_sso.Store.Memory.Rotating.{IsFound, gave}
use mcp_sso.Store.Memory.Family.{IsDead, SparesFamily, run-IsDead, dead-not-rotated, iso-ne-empty}
use mcp_sso.Store.Memory.Valid.{IsValid}
use mcp_sso.Store.Memory.{Call, run}

pub checked_now :
    (hash now label : String) (given next : SaveRefreshTokenInput)
    → checked_next hash given now ≡ ok next
    → assert_utc_iso_timestamp now label ≡ ok tt
unfolding checked_next validate_rotation assert_utc_iso_timestamp
checked_now hash now label given next e = ground arith

marked-truthy : (o : Option String) → o ≢ some "" → (is_none o ≡ true) ⊎ (truthy o ≡ true)
marked-truthy none h = inl refl
marked-truthy (some x) h = inr (ground (arith, eq_iff x ""))

-- The resource that a caller expects, where it expects one, is that of the family, if it is there.
abbrev pub FitsFamily : Option String → Option StoredFamily → Type 0
FitsFamily none found = Unit
FitsFamily (some e) none = Unit
FitsFamily (some e) (some f) = f.resource ≡ some e

meets_fitting :
    (expected : Option String) (f : StoredFamily)
    → FitsFamily expected (some f)
    → meets expected f.resource ≡ true
meets_fitting none f fits = refl
meets_fitting (some r) f fits = rw fits (eq_refl r)

revoke_found-IsDead :
    (id now : String) (expected : Option String) (found : Option StoredFamily) (s : MemoryStore)
    → get id s.families ≡ found
    → now ≢ ""
    → FitsFamily expected found
    → IsValid s
    → IsDead id (revoke_found id now expected found s)
revoke_found-IsDead id now expected none s e n fits v = ground (arith, e)
revoke_found-IsDead id now expected (some f) s e n fits v = ground (
  arith,
  e,
  marked-truthy f.revoked_at (v.marks id f e),
  meets_fitting expected f fits,
  get-put id id (revoke_at now expected f) s.families,
  eq_iff id id,
  eq_iff now "",
)

-- A revocation that returns leaves the family dead, where the expected resource is the family's.
pub revoke-IsDead :
    (id now : String) (expected : Option String) (s : MemoryStore)
    → IsValid s
    → FitsFamily expected (get id s.families)
    → (revoke_refresh_token_family id now expected s).0 ≡ ok tt
    → IsDead id (revoke_refresh_token_family id now expected s).1
unfolding revoke_refresh_token_family
revoke-IsDead id now expected s v fits h = ground (
  arith,
  iso-ne-empty now "revokedAtIso",
  revoke_found-IsDead id now expected (get id s.families) s refl,
  fits,
  v,
)

pub rotate-replayed :
    (hash now : String) (given next : SaveRefreshTokenInput) (g : Option ℕ) (r : Option String)
    (s : MemoryStore) (t : StoredRefresh) (f : StoredFamily)
    → s.closed ≡ false
    → checked_next hash given now ≡ ok next
    → IsFound hash g r s t f
    → truthy t.consumed_at ≡ true
    → ((revoke_refresh_token_family t.family_id now none s).0 ≡ ok tt)
      × ((rotate_refresh_token hash given now g r s).0 ≡ ok none)
      × ((rotate_refresh_token hash given now g r s).1
          ≡ (revoke_refresh_token_family t.family_id now none s).1)
unfolding rotate_refresh_token rotate_found rotate_replayed revoke_refresh_token_family
rotate-replayed hash now given next g r s t f o c found used = ground (
  arith,
  found.row,
  found.subject,
  found.family,
  found.bound,
  checked_now hash now "revokedAtIso" given next c,
)

-- When a consumed refresh token comes back, its family is finished: from then on, through any
-- calls that save no new token under the family's id, no token of the family is ever rotated.
pub replay_ends_family :
    (hash now : String) (given next : SaveRefreshTokenInput) (g : Option ℕ) (r : Option String)
    (s : MemoryStore) (t : StoredRefresh) (f : StoredFamily) (cs : List Call) (hash' now' : String)
    (given' : SaveRefreshTokenInput) (g' : Option ℕ) (r' : Option String) (t' : StoredRefresh)
    → IsValid s
    → s.closed ≡ false
    → checked_next hash given now ≡ ok next
    → IsFound hash g r s t f
    → truthy t.consumed_at ≡ true
    → All (SparesFamily t.family_id) cs
    → get hash' (run cs (rotate_refresh_token hash given now g r s).1).refresh_tokens ≡ some t'
    → t'.family_id ≡ t.family_id
    → ((rotate_refresh_token hash given now g r s).0 ≡ ok none)
      × (gave
            (rotate_refresh_token hash' given' now' g' r'
              (run cs (rotate_refresh_token hash given now g r s).1)).0
          ≡ false)
replay_ends_family hash now given next g r s t f cs hash' now' given' g' r' t' v o c found used
      spare row same =
    let (returned, none_given, after) =
      rotate-replayed hash now given next g r s t f o c found used in
    let dead : IsDead t.family_id (rotate_refresh_token hash given now g r s).1 =
      rw after (revoke-IsDead t.family_id now none s v tt returned) in
    (
      none_given,
      dead-not-rotated t.family_id hash' now' given' g' r' _ t'
          (run-IsDead t.family_id cs _ spare dead) row same,
    )

-- After a revocation that returns, where the expected resource is omitted or is the family's, and
-- through any calls that save no new token under the family's id, no token of the family is rotated.
pub revoked_stays_revoked :
    (id now : String) (expected : Option String) (s : MemoryStore) (cs : List Call)
    (hash' now' : String) (given' : SaveRefreshTokenInput) (g' : Option ℕ) (r' : Option String)
    (t' : StoredRefresh)
    → IsValid s
    → FitsFamily expected (get id s.families)
    → (revoke_refresh_token_family id now expected s).0 ≡ ok tt
    → All (SparesFamily id) cs
    → get hash' (run cs (revoke_refresh_token_family id now expected s).1).refresh_tokens ≡ some t'
    → t'.family_id ≡ id
    → gave
        (rotate_refresh_token hash' given' now' g' r'
          (run cs (revoke_refresh_token_family id now expected s).1)).0
      ≡ false
revoked_stays_revoked id now expected s cs hash' now' given' g' r' t' v fits h spare row same =
    dead-not-rotated id hash' now' given' g' r' _ t'
      (run-IsDead id cs _ spare (revoke-IsDead id now expected s v fits h)) row same
