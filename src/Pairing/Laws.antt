-- ===== src/Pairing/Laws.antt =====
-- identity/console-pairing.ts: who gets in, how often a code can be guessed, and that it is used once.
use mcp_sso.Common.{
  ℕ, ◌+◌, ◌-◌, ◌≤◌, ◌<◌, String, List, [], ◌∷◌, Option, none, some, Bool, true, false, ◌==◌, ◌≡◌,
  ◌≢◌, ◌↔◌, refl, arith, eq_iff, ltb, nat_eq, if◌then◌else◌, All,
}
use mcp_sso.Pairing.Code.{canonicalize_pairing_code}
use mcp_sso.Pairing.{
  ConsolePairingOptions, ActiveCode, Pairing, IdentityResult, identified, rejected, VerifyInput,
  input_code, input_nonce, LimitAnswer, is_allowed, begin_session, finish_generation,
  compare_active, verify_fields, verify, Event, begins, prints, verifies, step, run,
  reusable_session, new_pairing,
}

-- The submission fits the live code.
pub record Fits (upper : String → String) (input : VerifyInput) (limit : LimitAnswer) (now : ℕ)
    (p : Pairing) (a : ActiveCode) : Type 0 where
  pub live : p.active ≡ some a
  pub in_time : now < a.expires_at_ms
  pub allowed : is_allowed limit ≡ true
  pub code :
      (c : String) × (input_code input ≡ some c) × (canonicalize_pairing_code upper c ≡ a.code)
  pub nonce : input_nonce input ≡ some a.nonce

module _ (upper : String → String) (opts : ConsolePairingOptions) where
  compare-identified :
      (c n s : String) (now : ℕ) (a : ActiveCode)
      → (compare_active upper opts c n now (some a)).0 ≡ identified s
      → (now < a.expires_at_ms)
        × (canonicalize_pairing_code upper c ≡ a.code)
        × (n ≡ a.nonce)
        × (s ≡ opts.subject)
  unfolding compare_active
  compare-identified c n s now a h =
      ground (arith, eq_iff (canonicalize_pairing_code upper c) a.code, eq_iff n a.nonce)

  fits-compare :
      (c n : String) (now : ℕ) (a : ActiveCode)
      → now < a.expires_at_ms
      → canonicalize_pairing_code upper c ≡ a.code
      → n ≡ a.nonce
      → compare_active upper opts c n now (some a) ≡ (identified opts.subject, none)
  unfolding compare_active
  fits-compare c n now a h k l =
      ground (arith, eq_iff (canonicalize_pairing_code upper c) a.code, eq_iff n a.nonce)

  verify_fields-Fits :
      (code given : Option String) (limit : LimitAnswer) (now : ℕ) (active : Option ActiveCode)
      (s : String)
      → (verify_fields upper opts code given limit now active).0 ≡ identified s
      → (c : String) × (n : String) × (a : ActiveCode) × (code ≡ some c)
        × (given ≡ some n)
        × (active ≡ some a)
        × (is_allowed limit ≡ true)
        × ((compare_active upper opts c n now (some a)).0 ≡ identified s)
  unfolding verify_fields compare_active
  verify_fields-Fits none given limit now active s h = cc
  verify_fields-Fits (some c) none limit now active s h = cc
  verify_fields-Fits (some c) (some n) limit now none s h = ground arith
  verify_fields-Fits (some c) (some n) limit now (some a) s h =
      (c, n, a, refl, refl, refl, ground arith, ground arith)

  verify_sound :
      (input : VerifyInput) (limit : LimitAnswer) (now : ℕ) (p : Pairing) (s : String)
      → (verify upper opts input limit now p).0 ≡ identified s
      → ((a : ActiveCode) × Fits upper input limit now p a) × (s ≡ opts.subject)
  unfolding verify
  verify_sound input limit now p s h =
      let (c, n, a, code, given, live, allowed, same) =
        verify_fields-Fits (input_code input) (input_nonce input) limit now p.active s h in
      let (in_time, read, nonce, subject) = compare-identified c n s now a same in
      (
        (
          a,
          record {
            live = live;
            in_time = in_time;
            allowed = allowed;
            code = (c, code, read);
            nonce = ground (arith, given, nonce);
          },
        ),
        subject,
      )

  verify_accepts :
      (input : VerifyInput) (limit : LimitAnswer) (now : ℕ) (p : Pairing) (a : ActiveCode)
      → Fits upper input limit now p a
      → verify upper opts input limit now p ≡ (identified opts.subject, record p { active = none })
  unfolding verify verify_fields
  verify_accepts input limit now p a f =
      let (c, given, read) = f.code in
      ground
        (arith, f.live, f.allowed, f.nonce, given, fits-compare c a.nonce now a f.in_time read refl)

  -- `verify` lets a submission in exactly when a code is live and in date, the limiter does not deny
  -- it, and both the code, as it is read, and the nonce are those of the session; the identity is the
  -- configured subject.
  pub verify_iff :
      (input : VerifyInput) (limit : LimitAnswer) (now : ℕ) (p : Pairing) (s : String)
      → ((verify upper opts input limit now p).0 ≡ identified s)
        ↔ (((a : ActiveCode) × Fits upper input limit now p a) × (s ≡ opts.subject))
  verify_iff input limit now p s = (
    verify_sound input limit now p s,
    λ ((a, f), e). rw (verify_accepts input limit now p a f) (ground arith),
  )

  -- No banner is completed among the events.
  abbrev pub PrintsNone : Event → Type 0
  PrintsNone (prints true) = ⊥
  PrintsNone _ = Unit

  step-none :
      (e : Event) (p : Pairing)
      → PrintsNone e
      → p.active ≡ none
      → (step upper opts e p).active ≡ none
  unfolding step begin_session finish_generation verify verify_fields compare_active
      reusable_session
  step-none (begins code nonce now) p q h = ground arith
  step-none (prints true) p q h = absurd q
  step-none (prints false) p q h = ground arith
  step-none (verifies input limit now) p q h = ground arith

  run-none :
      (es : List Event) (p : Pairing)
      → All PrintsNone es
      → p.active ≡ none
      → (run upper opts es p).active ≡ none
  unfolding run
  run-none [] p q h = h
  run-none (e ∷ es) p q h = run-none es (step upper opts e p) q.1 (step-none e p q.0 h)

  -- A code that let somebody in lets nobody in again: until another banner has been printed, every
  -- submission is refused, whatever events come in between.
  pub code_used_once :
      (input input' : VerifyInput) (limit limit' : LimitAnswer) (now now' : ℕ) (p : Pairing)
      (es : List Event) (s s' : String)
      → (verify upper opts input limit now p).0 ≡ identified s
      → All PrintsNone es
      → (verify upper opts input' limit' now'
          (run upper opts es (verify upper opts input limit now p).1)).0
        ≢ identified s'
  code_used_once input input' limit limit' now now' p es s s' h quiet =
      let ((a, f), _) = verify_sound input limit now p s h in
      let after : (verify upper opts input limit now p).1.active ≡ none =
        rw (verify_accepts input limit now p a f) refl in
      let gone = run-none es (verify upper opts input limit now p).1 quiet after in
      λ k.
        let ((b, g), _) =
          verify_sound input' limit' now'
            (run upper opts es (verify upper opts input limit now p).1) s' k in
        cc (gone, g.live)

  -- The submissions that are compared with the code: a guess each.
  abbrev is_guess : IdentityResult → ℕ
  is_guess (identified s) = 1
  is_guess (rejected reason) = if reason == "pairing_wrong_code" then 1 else 0

  abbrev pub guess : Event → Pairing → ℕ
  guess (verifies input limit now) p = is_guess (verify upper opts input limit now p).0
  guess _ p = 0

  unfoldable pub guesses : List Event → Pairing → ℕ
  guesses [] p = 0
  guesses (e ∷ es) p = guess e p + guesses es (step upper opts e p)

  abbrev has_tries : Option ActiveCode → Bool
  has_tries none = true
  has_tries (some a) = ltb a.wrong_attempts opts.max_attempts

  abbrev is_fresh : Option ActiveCode → Bool
  is_fresh none = true
  is_fresh (some a) = nat_eq a.wrong_attempts 0

  pub record IsBounded (p : Pairing) : Type 0 where
    pub tries : has_tries p.active ≡ true
    pub fresh : is_fresh p.generating ≡ true

  abbrev left : Option ActiveCode → ℕ
  left none = 0
  left (some a) = opts.max_attempts - a.wrong_attempts

  guess-left :
      (e : Event) (p : Pairing)
      → PrintsNone e
      → IsBounded p
      → guess e p + left (step upper opts e p).active ≤ left p.active
  unfolding step begin_session finish_generation verify verify_fields compare_active
      reusable_session
  guess-left (begins code nonce now) p q v = ground arith
  guess-left (prints true) p q v = absurd q
  guess-left (prints false) p q v = ground arith
  guess-left (verifies input limit now) p q v = ground (arith, v.tries)

  step-IsBounded :
      (e : Event) (p : Pairing)
      → 0 < opts.max_attempts
      → IsBounded p
      → IsBounded (step upper opts e p)
  unfolding step begin_session finish_generation verify verify_fields compare_active
      reusable_session
  step-IsBounded (begins code nonce now) p m v = record {
    tries = ground (arith, v.tries);
    fresh = ground (arith, v.fresh);
  }
  step-IsBounded (prints written) p m v = record {
    tries = ground (arith, v.tries, v.fresh);
    fresh = ground arith;
  }
  step-IsBounded (verifies input limit now) p m v = record {
    tries = ground (arith, v.tries);
    fresh = ground (arith, v.fresh);
  }

  run-IsBounded :
      (es : List Event) (p : Pairing)
      → 0 < opts.max_attempts
      → IsBounded p
      → IsBounded (run upper opts es p)
  unfolding run
  run-IsBounded [] p m v = v
  run-IsBounded (e ∷ es) p m v = run-IsBounded es (step upper opts e p) m (step-IsBounded e p m v)

  guesses-left :
      (es : List Event) (p : Pairing)
      → 0 < opts.max_attempts
      → IsBounded p
      → All PrintsNone es
      → guesses es p ≤ left p.active
  unfolding guesses
  guesses-left [] p m v q = omega arith
  guesses-left (e ∷ es) p m v q = omega (
    arith,
    guess-left e p q.0 v,
    guesses-left es (step upper opts e p) m (step-IsBounded e p m v) q.1,
  )

  left-le : (active : Option ActiveCode) → left active ≤ opts.max_attempts
  left-le none = omega arith
  left-le (some a) = omega arith

  -- From any history on, and until another banner is printed, at most `maxAttempts` submissions are
  -- ever compared with the code, however they are timed and ordered.
  pub guesses_bounded :
      (before es : List Event)
      → 0 < opts.max_attempts
      → All PrintsNone es
      → guesses es (run upper opts before new_pairing) ≤ opts.max_attempts
  guesses_bounded before es m quiet =
      let p = run upper opts before new_pairing in
      let v = run-IsBounded before new_pairing m (record { tries = refl; fresh = refl }) in
      omega (arith, guesses-left es p m v quiet, left-le p.active)
