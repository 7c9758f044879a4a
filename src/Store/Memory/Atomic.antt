-- ===== src/Store/Memory/Atomic.antt =====
-- store/memory.ts: a rotation that throws has changed nothing.
use mcp_sso.Common.{ℕ, String, Option, ◌≡◌, inl, inr, arith, Bool-cases, true}
use mcp_sso.Errors.{Thrown, err}
use mcp_sso.Store.{SaveRefreshTokenInput}
use mcp_sso.Store.Memory.State.{MemoryStore}
use mcp_sso.Store.Memory.Rotation.{rotate_refresh_token}
use mcp_sso.Store.Memory.Rotating.{rotate_cases}
use mcp_sso.Store.Memory.Valid.{IsValid}
use mcp_sso.Store.Memory.Success.{rotate_succeeds}
use mcp_sso.Store.Memory.Revocation.{rotate-replayed}

rotate-closed :
    (hash now : String) (given : SaveRefreshTokenInput) (g : Option ℕ) (r : Option String)
    (s : MemoryStore)
    → s.closed ≡ true
    → (rotate_refresh_token hash given now g r s).1 ≡ s
unfolding rotate_refresh_token
rotate-closed hash now given g r s h = ground arith

-- A rotation that throws has changed nothing: in particular no token is consumed without its
-- successor being saved.
pub rotate_atomic :
    (hash now : String) (given : SaveRefreshTokenInput) (g : Option ℕ) (r : Option String)
    (s s' : MemoryStore) (x : Thrown)
    → IsValid s
    → rotate_refresh_token hash given now g r s ≡ (err x, s')
    → s' ≡ s
rotate_atomic hash now given g r s s' x v e = elim (Bool-cases s.closed) [
  | inl shut ↦ ground (arith, e, rotate-closed hash now given g r s shut)
  | inr is_open ↦ elim (rotate_cases hash now g r s given) [
    | inl (same, _) ↦ ground (arith, e, same)
    | inr (next, c, inl (t, f, found, used, after, _)) ↦
        ground (arith, e, rotate-replayed hash now given next g r s t f is_open c found used)
    | inr (next, c, inr (t, f, found, live, after, result)) ↦ ground (
      arith,
      e,
      rotate_succeeds hash now given next g r s t f c (v.filed hash t found.row) found live is_open,
    )
  ]
]
