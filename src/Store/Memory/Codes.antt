-- ===== src/Store/Memory/Codes.antt =====
-- store/memory.ts: the instance id, consent approval, authorization codes and consent JTIs.
-- A fresh instance id is an argument, since the source draws it at random.
use mcp_sso.Common.{
  ℕ, String, Option, none, some, Bool, true, false, not, ◌&&◌, ◌||◌, ◌==◌, if◌then◌else◌, text_lt,
  meets,
}
use mcp_sso.Errors.{ok, err}
use mcp_sso.Exec.{pure, lift, gets, modify, ◌>>=◌, ◌>>◌}
use mcp_sso.Dict.{get, has, put, remove}
use mcp_sso.Store.{
  AuthCodeRecord, SaveAuthCodeInput, ConsentApprovalCommitResult, stored, replayed,
  binding_mismatch, meets_generation,
}
use mcp_sso.Store.Checks.{
  assert_store_subject, assert_store_instance_id, assert_sha256_hex, assert_utc_iso_timestamp,
  grant_generation_for_write, validate_auth_code,
}
use mcp_sso.Store.Memory.State.{Op, ensure_open}

unfoldable pub get_store_instance_id : Op String
unfolding ensure_open
get_store_instance_id = do ensure_open; gets (λ s. s.store_instance_id)

unfoldable pub rotate_store_instance_id : String → Op String
unfolding ensure_open
rotate_store_instance_id fresh = do
  ensure_open
  modify (λ s. record s { store_instance_id = fresh })
  pure fresh

-- `this.sweptThrough !== null && expiresAtIso < this.sweptThrough`
abbrev pub swept : Option String → String → Bool
swept none t = false
swept (some w) t = text_lt t w

-- A saved code always has a generation.
abbrev pub stamp_code : SaveAuthCodeInput → AuthCodeRecord
stamp_code c = record c { grant_generation = grant_generation_for_write c.grant_generation }

-- The part of `commitConsentApproval` behind the checks.
unfoldable pub commit : String → String → String → AuthCodeRecord → Op ConsentApprovalCommitResult
commit expected jti expires_at code s =
    if not (expected == s.store_instance_id)
    then (ok binding_mismatch, s)
    else if has jti s.consent_jtis || swept s.swept_through expires_at
    then (ok replayed, s)
    else (
      ok stored,
      record s {
        consent_jtis = put jti expires_at s.consent_jtis;
        auth_codes = put code.code_hash code s.auth_codes;
      },
    )

unfoldable pub commit_consent_approval :
    String → String → String → SaveAuthCodeInput → Op ConsentApprovalCommitResult
unfolding ensure_open commit
commit_consent_approval expected jti expires_at code = do
  ensure_open
  lift (assert_store_instance_id expected)
  lift (assert_utc_iso_timestamp expires_at "expiresAtIso")
  lift (validate_auth_code code)
  commit expected jti expires_at (stamp_code code)

unfoldable pub save_auth_code : SaveAuthCodeInput → Op (Unit {0})
unfolding ensure_open
save_auth_code input = do
  ensure_open
  lift (validate_auth_code input)
  modify (λ s. record s { auth_codes = put input.code_hash (stamp_code input) s.auth_codes })

-- The test on the record that was read.
abbrev pub usable_code : String → Option ℕ → AuthCodeRecord → Bool
usable_code now generation r =
    text_lt now r.expires_at && meets_generation generation r.grant_generation

-- The part of `consumeAuthCode` behind the checks, by what the map holds.
unfoldable pub consume_found :
    String → String → Option ℕ → Option String → Option AuthCodeRecord → Op (Option AuthCodeRecord)
consume_found hash now generation resource none s =
    (ok none, record s { auth_codes = remove hash s.auth_codes })
consume_found hash now generation resource (some r) s =
    if not (meets resource (some r.resource))
    then (ok none, s)
    else elim (assert_store_subject r.subject "stored subject") [
      | err e ↦ (err e, s)
      | ok _ ↦ (
        ok (if usable_code now generation r then some r else none),
        record s { auth_codes = remove hash s.auth_codes },
      )
    ]

unfoldable pub consume_auth_code :
    String → String → Option ℕ → Option String → Op (Option AuthCodeRecord)
unfolding ensure_open consume_found
consume_auth_code hash now generation resource = do
  ensure_open
  lift (assert_sha256_hex hash "codeHash")
  lift (assert_utc_iso_timestamp now "nowIso")
  found ← gets (λ s. get hash s.auth_codes)
  consume_found hash now generation resource found

unfoldable pub consume_consent_jti : String → String → Op Bool
unfolding ensure_open
consume_consent_jti jti expires_at = do
  ensure_open
  lift (assert_utc_iso_timestamp expires_at "expiresAtIso")
  used ← gets (λ s. has jti s.consent_jtis || swept s.swept_through expires_at)
  if used
      then pure false
      else do modify (λ s. record s { consent_jtis = put jti expires_at s.consent_jtis }); pure true
