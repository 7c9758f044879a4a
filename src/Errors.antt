-- ===== src/Errors.antt =====
-- errors.ts, config-error.ts, cimd/errors.ts, port-failure.ts: what the program throws, and the
-- result of code that may throw.
use mcp_sso.Common.{ℕ, String, Option, none, some, Bool, true, false, ◌≡◌, refl, ◌⊎◌, inl, inr}

pub record RedirectTarget : Type 0 where
  pub redirect_uri : String
  pub state : Option String

pub record OAuthError : Type 0 where
  pub code : String
  pub message : String
  pub status : ℕ
  pub redirect : Option RedirectTarget

pub data CimdReason : Type 0 where
  url_admission_denied dns_failed ip_blocked redirect_refused status_not_200 content_type :
      CimdReason
  encoding size_exceeded timeout fetch_failed document_invalid overloaded : CimdReason

-- One constructor for each class of error that the program throws.
pub data Thrown : Type 0 where
  oauth : OAuthError → Thrown
  cimd : CimdReason → Thrown
  store_input config plain type_error range_error : String → Thrown
  port_failure : (port operation : String) (cause : Thrown) (status : Option ℕ) → Thrown

pub data Result {ℓ} (A : Type ℓ) : Type ℓ where
  ok : A → Result A
  err : Thrown → Result A

infixl 5 ◌>>=◌ ◌>>◌
abbrev pub ◌>>=◌ {ℓ κ} : {A : Type ℓ} {B : Type κ} → Result A → (A → Result B) → Result B
ok a >>= f = f a
err e >>= f = err e

abbrev pub ◌>>◌ {ℓ κ} : {A : Type ℓ} {B : Type κ} → Result A → Result B → Result B
m >> k = m >>= λ _. k

pub Result-cases {ℓ} :
    {A : Type ℓ} (r : Result A) → ((a : A) × (r ≡ ok a)) ⊎ ((e : Thrown) × (r ≡ err e))
Result-cases (ok a) = inl (a, refl)
Result-cases (err e) = inr (e, refl)

-- `if (!test) throw error`
abbrev pub require : Bool → Thrown → Result (Unit {0})
require true e = ok tt
require false e = err e

-- `new OAuthError(code, message, status)`
abbrev pub oauth_error : String → String → ℕ → Thrown
oauth_error code message status =
    oauth (record { code = code; message = message; status = status; redirect = none })

unfoldable pub is_oauth : Thrown → Bool
is_oauth (oauth e) = true
is_oauth _ = false

-- The status that `snapshotOAuthFailure` keeps of an error.
unfoldable pub oauth_status : Thrown → Option ℕ
oauth_status (oauth e) = some e.status
oauth_status _ = none

-- `withRedirect`, on an error that has no redirect yet.
unfoldable pub with_redirect : OAuthError → String → Option String → OAuthError
with_redirect e uri state = record e {
  redirect = some (record { redirect_uri = uri; state = state });
}

-- The `catch` of `callPort`: what a port threw is wrapped once and never kept as an OAuthError.
unfoldable pub port_error : String → String → Thrown → Thrown
unfolding oauth_status
port_error port operation (port_failure p o c s) = port_failure p o c s
port_error port operation e = port_failure port operation e (oauth_status e)

-- `callPort` on the outcome of the port.
unfoldable pub call_port {ℓ} : {A : Type ℓ} → String → String → Result A → Result A
unfolding port_error
call_port port operation (ok a) = ok a
call_port port operation (err e) = err (port_error port operation e)

-- A chain that returned has passed each of its tests.
pub require-passed {ℓ} :
    {A : Type ℓ} (b : Bool) (e : Thrown) (m : Result A) (a : A)
    → (require b e >> m) ≡ ok a
    → (b ≡ true) × (m ≡ ok a)
require-passed true e m a h = (refl, h)
require-passed false e m a h = cc

pub bind-passed {ℓ κ} :
    {A : Type ℓ} {B : Type κ} (m : Result A) (f : A → Result B) (b : B)
    → (m >>= f) ≡ ok b
    → (a : A) × (m ≡ ok a) × (f a ≡ ok b)
bind-passed (ok a) f b h = (a, refl, h)
bind-passed (err e) f b h = cc
