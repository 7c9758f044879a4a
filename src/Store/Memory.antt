-- ===== src/Store/Memory.antt =====
-- store/memory.ts: MemoryStore as a state machine. The children hold its methods.
-- The scheduler that calls `sweepExpired` is outside the model: any sequence of calls may hold
-- sweeps.
pub mod State
pub mod Codes
pub mod Tokens
pub mod Rotation
pub mod Expiry
pub mod SingleUse
pub mod Frame
pub mod Replay
pub mod Saving
pub mod Expected
pub mod Outcomes
pub mod Rotating
pub mod Family
pub mod Valid
pub mod Writes
pub mod Keeps
pub mod Success
pub mod Revocation
pub mod Atomic
pub mod Granted
pub mod Sweeping
mod Tests
use mcp_sso.Common.{
  ℕ, String, List, [], ◌∷◌, ◌++◌, Option, none, some, Bool, true, false, not, ◌&&◌, ◌||◌, ◌==◌,
  if◌then◌else◌, text_lt, includes, is_text, meets, is_some, is_none, any, map, keep_if,
}
use mcp_sso.Errors.{Thrown, Result, ok, err, plain, store_input}
use mcp_sso.Exec.{Exec, pure, throw, lift, gets, modify, continue, ◌>>=◌, ◌>>◌}
use mcp_sso.Dict.{Dict, get, has, put, remove, retain, values}
use mcp_sso.Store.{
  Generation, AuthCodeRecord, SaveAuthCodeInput, RefreshTokenRecord, SaveRefreshTokenInput,
  ConsentApprovalCommitResult, stored, replayed, binding_mismatch, unbound_refresh_resource,
  meets_generation, same_generation,
}
use mcp_sso.Store.Checks.{
  assert_store_subject, assert_store_instance_id, assert_sha256_hex, assert_utc_iso_timestamp,
  assert_refresh_resource, grant_generation_for_write, normalize_refresh_token_write,
  validate_auth_code, validate_refresh_token, validate_rotation,
}
use mcp_sso.Store.Memory.State.{
  StoredRefresh, StoredFamily, MemoryStore, Op, truthy, same_text, ensure_open,
}
use mcp_sso.Store.Memory.Codes.{
  rotate_store_instance_id, commit_consent_approval, save_auth_code, consume_auth_code,
  consume_consent_jti,
}
use mcp_sso.Store.Memory.Tokens.{
  save_refresh_token, revoke_refresh_token_family, find_refresh_token,
}
use mcp_sso.Store.Memory.Rotation.{rotate_refresh_token}
use mcp_sso.Store.Memory.Expiry.{find_granted_scopes, sweep_expired}

unfoldable pub close : Op (Unit {0})
close = modify (λ s. record s { closed = true })

-- One call of a method, with its arguments.
pub data Call : Type 0 where
  rotates_id : (fresh : String) → Call
  commits : (expected jti expires_at : String) → SaveAuthCodeInput → Call
  saves_code : SaveAuthCodeInput → Call
  consumes_code : (hash now : String) → Option ℕ → Option String → Call
  consumes_jti : (jti expires_at : String) → Call
  saves_token : SaveRefreshTokenInput → Call
  rotates :
      (hash : String) → SaveRefreshTokenInput → (now : String) → Option ℕ → Option String → Call
  revokes : (id now : String) → Option String → Call
  finds : (hash : String) → Call
  finds_scopes : (subject client_id now : String) → Option ℕ → Option String → Call
  sweeps : (now : String) → Call
  closes : Call

-- The store after a call, whether it returned or threw.
unfoldable pub step : Call → MemoryStore → MemoryStore
step (rotates_id fresh) s = (rotate_store_instance_id fresh s).1
step (commits expected jti expires_at code) s =
    (commit_consent_approval expected jti expires_at code s).1
step (saves_code code) s = (save_auth_code code s).1
step (consumes_code hash now g r) s = (consume_auth_code hash now g r s).1
step (consumes_jti jti expires_at) s = (consume_consent_jti jti expires_at s).1
step (saves_token t) s = (save_refresh_token t s).1
step (rotates hash next now g r) s = (rotate_refresh_token hash next now g r s).1
step (revokes id now r) s = (revoke_refresh_token_family id now r s).1
step (finds hash) s = (find_refresh_token hash s).1
step (finds_scopes subject client_id now g r) s =
    (find_granted_scopes subject client_id now g r s).1
step (sweeps now) s = (sweep_expired now s).1
step closes s = (close s).1

unfoldable pub run : List Call → MemoryStore → MemoryStore
run [] s = s
run (c ∷ cs) s = run cs (step c s)
