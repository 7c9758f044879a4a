-- ===== src/Pairing/Tests.antt =====
-- identity/console-pairing.ts: one session, from its banner to its use.
use mcp_sso.Common.{
  ℕ, ◌≤◌, String, List, [], ◌∷◌, none, some, true, false, ◌≡◌, ◌≢◌, ◌↔◌, refl, arith, any,
}
use mcp_sso.Pairing.Code.{
  in_charset, keep_charset, canonicalize_pairing_code, take_text, drop_text, format_pairing_code,
  draw, generate_pairing_code, ◌+++◌,
}
use mcp_sso.Pairing.{
  ConsolePairingOptions, ActiveCode, Pairing, identified, VerifyInput, fields, answered, Event,
  begins, prints, verifies, begin_session, finish_generation, reusable_session, compare_active,
  verify_fields, verify, step, run, new_pairing,
}
use mcp_sso.Pairing.Laws.{Fits, verify_iff, code_used_once, guesses, guesses_bounded}
use mcp_sso.Pairing.Print.{canonicalize-format-generate}

abbrev opts : ConsolePairingOptions
opts = record { subject = "console-operator"; code_ttl_seconds = 600; max_attempts = 2 }

abbrev same : String → String
same text = text

program : Unit {0}
unfolding begin_session finish_generation reusable_session compare_active verify_fields verify step
    run canonicalize_pairing_code keep_charset in_charset any take_text drop_text
    format_pairing_code draw generate_pairing_code ◌+++◌ guesses
program = tt

abbrev bytes : List ℕ
bytes = 0 ∷ 255 ∷ 1 ∷ 2 ∷ 3 ∷ 4 ∷ 5 ∷ 6 ∷ 7 ∷ 8 ∷ 9 ∷ 10 ∷ 239 ∷ []

test_drawn : format_pairing_code (generate_pairing_code bytes) ≡ "BCDF-GHJK-LMNZ"
unfolding program
test_drawn = refl

canonicalize-format-generate_example :
    canonicalize_pairing_code same (format_pairing_code (generate_pairing_code bytes))
    ≡ generate_pairing_code bytes
canonicalize-format-generate_example = canonicalize-format-generate same bytes refl

abbrev live_code : ActiveCode
live_code = record {
  code = "BCDFGHJKLMNZ";
  nonce = "n";
  expires_at_ms = 600000;
  wrong_attempts = 0;
}

abbrev live : Pairing
live = record { active = some live_code; generating = none }

abbrev opening : List Event
opening = begins "BCDFGHJKLMNZ" "n" 0 ∷ prints true ∷ []

test_live : run same opts opening new_pairing ≡ live
unfolding program
test_live = refl

abbrev right : VerifyInput
right = fields (some "BCDF-GHJK-LMNZ") (some "n")

abbrev wrong : VerifyInput
wrong = fields (some "BCDF") (some "n")

verify_iff_example :
    ((verify same opts right (answered true) 5 live).0 ≡ identified "console-operator") ↔ (
      ((a : ActiveCode) × Fits same right (answered true) 5 live a)
      × (◌≡◌ {A = String} "console-operator" opts.subject))
verify_iff_example = verify_iff same opts right (answered true) 5 live "console-operator"

test_identified : (verify same opts right (answered true) 5 live).0 ≡ identified "console-operator"
unfolding program
test_identified = refl

code_used_once_example :
    (verify same opts right
      (answered true)
      6
      (run same opts (prints false ∷ []) (verify same opts right (answered true) 5 live).1)).0
    ≢ identified "console-operator"
code_used_once_example =
    code_used_once same opts right right (answered true) (answered true) 5 6 live
      (prints false ∷ []) "console-operator" "console-operator" test_identified (tt, tt)

abbrev tries : List Event
tries =
    verifies wrong (answered true) 5
    ∷ verifies wrong (answered true) 6
    ∷ verifies right (answered true) 7
    ∷ []

test_guesses : guesses same opts tries live ≡ 2
unfolding program
test_guesses = refl

guesses_bounded_example : guesses same opts tries (run same opts opening new_pairing) ≤ 2
guesses_bounded_example = guesses_bounded same opts opening tries (omega arith) (tt, (tt, (tt, tt)))
