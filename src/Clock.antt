-- ===== src/Clock.antt =====
-- ports/clock.ts, numeric-date.ts and expiresAtIso of crypto.ts: readings of the caller's clock.
-- A reading is `none` where nowMs() throws or gives no safe integer. Instants before 1970 are left out.
use mcp_sso.Common.{ℕ, ◌+◌, ◌*◌, String, Option, none, some, leb, if◌then◌else◌}
use mcp_sso.Errors.{Result, ok, err, plain, range_error, ◌>>=◌}
use mcp_sso.Store.Checks.{max_safe_integer}

-- 9999-12-31T23:59:59.999Z
abbrev pub max_canonical_ms : ℕ
max_canonical_ms = 253402300799999

unfoldable pub integer_clock_snapshot : Option ℕ → Result ℕ
integer_clock_snapshot none =
    err (range_error "ClockPort.nowMs() must fit the canonical UTC timestamp range")
integer_clock_snapshot (some now) =
    if leb now max_safe_integer
    then ok now
    else err (range_error "ClockPort.nowMs() must be a safe-integer millisecond timestamp")

abbrev in_range : ℕ → ℕ → Result ℕ
in_range offset now =
    if leb (now + offset) max_canonical_ms
    then ok now
    else err (range_error "ClockPort.nowMs() must fit the canonical UTC timestamp range")

unfoldable pub finite_clock_snapshot : Option ℕ → (offset : ℕ) → Result ℕ
unfolding integer_clock_snapshot
finite_clock_snapshot clock offset = integer_clock_snapshot clock >>= in_range offset

-- `numericDateIso` on a safe integer, where `iso` prints an instant.
unfoldable pub numeric_date_iso : (iso : ℕ → String) → ℕ → Result String
unfolding finite_clock_snapshot
numeric_date_iso iso seconds =
    if leb seconds max_safe_integer
    then finite_clock_snapshot (some (seconds * 1000)) 0 >>= (λ ms. ok (iso ms))
    else err (plain "invalid exp")

unfoldable pub expires_at_iso : (iso : ℕ → String) → Option ℕ → (ttl_seconds : ℕ) → Result String
unfolding finite_clock_snapshot
expires_at_iso iso clock ttl_seconds =
    finite_clock_snapshot clock (ttl_seconds * 1000) >>= λ now. ok (iso (now + ttl_seconds * 1000))
