-- ===== src/Store/Memory/Saving.antt =====
-- store/memory.ts: what a saved refresh token changes.
use mcp_sso.Common.{String, Option, none, true, ◌≡◌, ◌≢◌, ◌⊎◌, inl, inr, arith}
use mcp_sso.Errors.{ok, Result-cases}
use mcp_sso.Dict.{get, put}
use mcp_sso.Store.{SaveRefreshTokenInput}
use mcp_sso.Store.Checks.{
  normalize_refresh_token_write, validate_refresh_token, assert_utc_iso_timestamp,
}
use mcp_sso.Store.Memory.State.{MemoryStore, StoredRefresh}
use mcp_sso.Store.Memory.Tokens.{
  save_refresh_token, checked_input, insert_token, stamp_token, add_family, admits,
  revoke_refresh_token_family, revoke_found,
}

-- A row enters the store: its hash is new, and its family is new or bound as the row is.
pub record Inserts (row : StoredRefresh) (s s' : MemoryStore) : Type 0 where
  pub absent : get row.token_hash s.refresh_tokens ≡ none
  pub admitted : admits (get row.family_id s.families) row ≡ true
  pub after : s' ≡ record s {
    families = add_family row (get row.family_id s.families) s.families;
    refresh_tokens = put row.token_hash row s.refresh_tokens;
  }

-- What normalising does to an input: an omitted resource becomes the unbound one.
pub record IsNormal (t input : SaveRefreshTokenInput) : Type 0 where
  pub same_but_resource : input ≡ record t { resource = input.resource }
  pub bound : input.resource ≢ none

pub normalize-IsNormal :
    (t input : SaveRefreshTokenInput)
    → normalize_refresh_token_write t ≡ ok input
    → IsNormal t input
unfolding normalize_refresh_token_write
normalize-IsNormal t input h = ground arith

insert_cases :
    (row : StoredRefresh) (s : MemoryStore)
    → ((insert_token row s).1 ≡ s) × ((insert_token row s).0 ≢ ok tt)
      ⊎ ((insert_token row s).0 ≡ ok tt) × Inserts row s (insert_token row s).1
unfolding insert_token
insert_cases row s = ground arith

pub checked-IsNormal :
    (t input : SaveRefreshTokenInput)
    → checked_input t ≡ ok input
    → IsNormal t input × (validate_refresh_token input true ≡ ok tt)
unfolding checked_input
checked-IsNormal t input h = ground (arith, normalize-IsNormal t input)

-- A save changes nothing, or puts the checked row into the store.
pub save_cases :
    (t : SaveRefreshTokenInput) (s : MemoryStore)
    → (((save_refresh_token t s).1 ≡ s) × ((save_refresh_token t s).0 ≢ ok tt))
      ⊎ ((input : SaveRefreshTokenInput) × (checked_input t ≡ ok input)
          × ((save_refresh_token t s).0 ≡ ok tt)
          × Inserts (stamp_token input) s (save_refresh_token t s).1)
unfolding save_refresh_token
save_cases t s = elim (Result-cases (checked_input t)) [
  | inl (input, e) ↦ ground (arith, insert_cases (stamp_token input) s)
  | inr (x, e) ↦ ground arith
]

-- A revocation changes nothing, or dates the family.
pub revoke_cases :
    (k now : String) (r : Option String) (s : MemoryStore)
    → ((revoke_refresh_token_family k now r s).1 ≡ s)
      ⊎ ((assert_utc_iso_timestamp now "revokedAtIso" ≡ ok tt)
          × ((revoke_refresh_token_family k now r s).1 ≡ revoke_found k now r (get k s.families) s))
unfolding revoke_refresh_token_family
revoke_cases k now r s = ground arith
