-- ===== src/Cimd/Waiters.antt =====
-- cimd/waiters.ts: how many followers are parked on each fetch.
use mcp_sso.Common.{
  ℕ, ◌+◌, ◌-◌, String, Option, none, some, Bool, true, false, leb, nat_eq, if◌then◌else◌,
}
use mcp_sso.Dict.{Dict, get, put, remove}

abbrev pub WaiterCounts : Type 0
WaiterCounts = Dict ℕ

-- `this.#counts.get(key) ?? otherwise`
abbrev pub or_else : ℕ → Option ℕ → ℕ
or_else otherwise none = otherwise
or_else otherwise (some n) = n

unfoldable pub try_acquire : String → ℕ → WaiterCounts → Bool × WaiterCounts
try_acquire key max counts =
    let parked = or_else 0 (get key counts) in
    if leb max parked then (false, counts) else (true, put key (parked + 1) counts)

-- `left <= 0` holds where the truncated difference is 0.
unfoldable pub release : String → WaiterCounts → WaiterCounts
release key counts =
    let left = or_else 1 (get key counts) - 1 in
    if nat_eq left 0 then remove key counts else put key left counts
