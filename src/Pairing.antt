-- ===== src/Pairing.antt =====
-- identity/console-pairing.ts: the pairing code of a single-operator deployment, as a state machine.
-- One event is what runs between two awaits, so a verification may come while a banner is printed.
-- An instant is one that finiteClockSnapshot accepts, and all clock reads of one event give it. The
-- audit is left out: it changes neither the answer nor the state.
pub mod Code
pub mod Laws
pub mod Print
mod Tests
use mcp_sso.Common.{
  ℕ, ◌+◌, ◌*◌, String, List, [], ◌∷◌, Option, none, some, Bool, true, ◌&&◌, ◌==◌, leb, ltb,
  if◌then◌else◌,
}
use mcp_sso.Errors.{Result, type_error, require, ◌>>◌}
use mcp_sso.Pairing.Code.{canonicalize_pairing_code}

pub record ConsolePairingOptions : Type 0 where
  pub subject : String
  pub code_ttl_seconds : ℕ
  pub max_attempts : ℕ

unfoldable pub check_options : ConsolePairingOptions → Result (Unit {0})
check_options opts = do
  require (ltb 0 opts.code_ttl_seconds) (type_error "codeTtlSeconds must be a positive integer")
  require (ltb 0 opts.max_attempts) (type_error "maxAttempts must be a positive integer")

pub record ActiveCode : Type 0 where
  pub code : String
  pub nonce : String
  pub expires_at_ms : ℕ
  pub wrong_attempts : ℕ

pub record PairingSession : Type 0 where
  pub nonce : String
  pub expires_at_ms : ℕ

-- `active`, and the code that `generating` is about to publish.
pub record Pairing : Type 0 where
  pub active : Option ActiveCode
  pub generating : Option ActiveCode

abbrev pub new_pairing : Pairing
new_pairing = record { active = none; generating = none }

pub data IdentityResult : Type 0 where
  identified : (subject : String) → IdentityResult
  rejected : (reason : String) → IdentityResult

-- What `verify` is given: a bare string, an object with or without its fields, or something else.
pub data VerifyInput : Type 0 where
  bare : String → VerifyInput
  fields : (code nonce : Option String) → VerifyInput
  other : VerifyInput

abbrev pub input_code : VerifyInput → Option String
input_code (bare code) = some code
input_code (fields code given) = code
input_code other = none

abbrev pub input_nonce : VerifyInput → Option String
input_nonce (bare code) = some ""
input_nonce (fields code given) = given
input_nonce other = none

-- What the rate limiter did: it answered, or it threw.
pub data LimitAnswer : Type 0 where
  answered : Bool → LimitAnswer
  threw : LimitAnswer

abbrev pub is_allowed : LimitAnswer → Bool
is_allowed (answered b) = b
is_allowed threw = true

pub data Event : Type 0 where
  begins : (code nonce : String) (now : ℕ) → Event
  prints : (written : Bool) → Event
  verifies : VerifyInput → LimitAnswer → (now : ℕ) → Event

module _ (upper : String → String) (opts : ConsolePairingOptions) where
  abbrev pub session_of : ActiveCode → PairingSession
  session_of a = record { nonce = a.nonce; expires_at_ms = a.expires_at_ms }

  -- The test of `reusableSession` on an active code.
  abbrev pub is_reusable : ℕ → ActiveCode → Bool
  is_reusable now a = ltb now a.expires_at_ms && ltb a.wrong_attempts opts.max_attempts

  unfoldable pub reusable_session : ℕ → Option ActiveCode → Option PairingSession
  reusable_session now none = none
  reusable_session now (some a) = if is_reusable now a then some (session_of a) else none

  abbrev fresh_code : (code nonce : String) → ℕ → ActiveCode
  fresh_code code nonce now = record {
    code = code;
    nonce = nonce;
    expires_at_ms = now + opts.code_ttl_seconds * 1000;
    wrong_attempts = 0;
  }

  abbrev start_unless : (code nonce : String) → ℕ → Option PairingSession → Pairing → Pairing
  start_unless code nonce now (some session) p = p
  start_unless code nonce now none p = record p { generating = some (fresh_code code nonce now) }

  -- `beginSession` up to the await of the banner: it joins a generation, reuses the live code, or
  -- starts a generation with a code and a nonce drawn at random.
  unfoldable pub begin_session : (code nonce : String) → ℕ → Pairing → Pairing
  unfolding reusable_session
  begin_session code nonce now p = elim p.generating [
    | some pending ↦ p
    | none ↦ start_unless code nonce now (reusable_session now p.active) p
  ]

  -- The banner was written, or the write failed.
  unfoldable pub finish_generation : (written : Bool) → Pairing → Pairing
  finish_generation written p = elim p.generating [
    | none ↦ p
    | some pending ↦ record p {
      active = if written then some pending else p.active;
      generating = none;
    }
  ]

  abbrev pub matches : (code nonce : String) → ActiveCode → Bool
  matches code nonce a = canonicalize_pairing_code upper code == a.code && nonce == a.nonce

  -- A wrong submission: one attempt more, and the code is gone when none is left.
  abbrev pub after_wrong : ActiveCode → Option ActiveCode
  after_wrong a =
      if leb opts.max_attempts (a.wrong_attempts + 1)
      then none
      else some (record a { wrong_attempts = a.wrong_attempts + 1 })

  -- `verify` on the active code, once the input is complete and the limiter allows it.
  unfoldable pub compare_active :
      (code nonce : String) → ℕ → Option ActiveCode → IdentityResult × Option ActiveCode
  unfolding canonicalize_pairing_code
  compare_active code nonce now none = (rejected "pairing_no_active_code", none)
  compare_active code nonce now (some a) =
      if leb a.expires_at_ms now
      then (rejected "pairing_expired", none)
      else if matches code nonce a
      then (identified opts.subject, none)
      else (rejected "pairing_wrong_code", after_wrong a)

  unfoldable pub verify_fields :
      Option String
      → Option String
      → LimitAnswer
      → ℕ
      → Option ActiveCode
      → IdentityResult × Option ActiveCode
  unfolding compare_active
  verify_fields none given limit now active = (rejected "pairing_invalid_input", active)
  verify_fields (some code) none limit now active = (rejected "pairing_invalid_input", active)
  verify_fields (some code) (some nonce) limit now active =
      if is_allowed limit
      then compare_active code nonce now active
      else (rejected "pairing_rate_limited", active)

  unfoldable pub verify : VerifyInput → LimitAnswer → ℕ → Pairing → IdentityResult × Pairing
  unfolding verify_fields
  verify input limit now p =
      let (result, active) =
        verify_fields (input_code input) (input_nonce input) limit now p.active in
      (result, record p { active = active })

  unfoldable pub step : Event → Pairing → Pairing
  unfolding begin_session finish_generation verify
  step (begins code nonce now) p = begin_session code nonce now p
  step (prints written) p = finish_generation written p
  step (verifies input limit now) p = (verify input limit now p).1

  unfoldable pub run : List Event → Pairing → Pairing
  unfolding step
  run [] p = p
  run (e ∷ es) p = run es (step e p)
