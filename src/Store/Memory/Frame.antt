-- ===== src/Store/Memory/Frame.antt =====
-- store/memory.ts: what the methods on refresh tokens leave alone.
use mcp_sso.Common.{ℕ, String, Option, none, some, ◌≡◌, arith}
use mcp_sso.Store.{SaveRefreshTokenInput}
use mcp_sso.Store.Memory.State.{MemoryStore, StoredRefresh, StoredFamily}
use mcp_sso.Store.Memory.Tokens.{
  save_refresh_token, revoke_refresh_token_family, find_refresh_token,
}
use mcp_sso.Store.Memory.Rotation.{
  successor, consume_token, rotate_if, rotate_refresh_token, rotate_found, rotate_live,
  rotate_current, rotate_replayed,
}
use mcp_sso.Store.Memory.Expiry.{find_granted_scopes}

-- All but the tokens and their families is the same.
pub record SameRest (s s' : MemoryStore) : Type 0 where
  pub closed : s'.closed ≡ s.closed
  pub auth_codes : s'.auth_codes ≡ s.auth_codes
  pub consent_jtis : s'.consent_jtis ≡ s.consent_jtis
  pub swept_through : s'.swept_through ≡ s.swept_through
  pub store_instance_id : s'.store_instance_id ≡ s.store_instance_id

pub SameRest-refl : (s : MemoryStore) → SameRest s s
SameRest-refl s = ground arith

pub save-SameRest :
    (input : SaveRefreshTokenInput) (s : MemoryStore) → SameRest s (save_refresh_token input s).1
unfolding save_refresh_token
save-SameRest input s = ground arith

pub revoke-SameRest :
    (id now : String) (r : Option String) (s : MemoryStore)
    → SameRest s (revoke_refresh_token_family id now r s).1
unfolding revoke_refresh_token_family
revoke-SameRest id now r s = ground arith

rotate_current-SameRest :
    (hash : String) (next : SaveRefreshTokenInput) (now : String) (t : StoredRefresh)
    (s : MemoryStore)
    → SameRest s (rotate_current hash next now t s).1
unfolding rotate_current
rotate_current-SameRest hash next now t s =
    ground (arith, save-SameRest (successor next t) (consume_token hash now t s))

rotate_found-SameRest :
    (hash : String) (next : SaveRefreshTokenInput) (now : String) (g : Option ℕ) (r : Option String)
    (t : StoredRefresh) (f : StoredFamily) (s : MemoryStore)
    → SameRest s (rotate_found hash next now g r t f s).1
unfolding rotate_found rotate_live rotate_replayed
rotate_found-SameRest hash next now g r t f s =
    ground
      (arith, rotate_current-SameRest hash next now t s, revoke-SameRest t.family_id now none s)

rotate_if-SameRest :
    (hash : String) (next : SaveRefreshTokenInput) (now : String) (g : Option ℕ) (r : Option String)
    (found : Option (StoredRefresh × StoredFamily)) (s : MemoryStore)
    → SameRest s (rotate_if hash next now g r found s).1
rotate_if-SameRest hash next now g r none s = SameRest-refl s
rotate_if-SameRest hash next now g r (some (t, f)) s = rotate_found-SameRest hash next now g r t f s

pub rotate-SameRest :
    (hash : String) (next : SaveRefreshTokenInput) (now : String) (g : Option ℕ) (r : Option String)
    (s : MemoryStore)
    → SameRest s (rotate_refresh_token hash next now g r s).1
unfolding rotate_refresh_token
rotate-SameRest hash next now g r s = grind (arith, rotate_if-SameRest, SameRest-refl)

pub find-frame : (hash : String) (s : MemoryStore) → (find_refresh_token hash s).1 ≡ s
unfolding find_refresh_token
find-frame hash s = ground arith

pub find_scopes-frame :
    (subject client_id now : String) (g : Option ℕ) (r : Option String) (s : MemoryStore)
    → (find_granted_scopes subject client_id now g r s).1 ≡ s
unfolding find_granted_scopes
find_scopes-frame subject client_id now g r s = ground arith
