-- ===== src/Store/Memory/SingleUse.antt =====
-- store/memory.ts: an authorization code and a consent JTI are good for one use.
use mcp_sso.Common.{
  ℕ, String, Option, none, some, true, false, ◌≡◌, ◌≢◌, ◌⊎◌, text_lt, arith, eq_iff, meets,
}
use mcp_sso.Errors.{ok}
use mcp_sso.Dict.{get, put, remove}
use mcp_sso.Dict.Laws.{get-put}
use mcp_sso.Store.{AuthCodeRecord, SaveAuthCodeInput, stored, meets_generation}
use mcp_sso.Store.Memory.State.{MemoryStore}
use mcp_sso.Store.Memory.Codes.{
  swept, stamp_code, commit_consent_approval, consume_auth_code, consume_consent_jti,
}

-- The code that a call returned was the stored one, in date and of the expected generation and
-- resource, and the call removed it and changed nothing else.
pub consume_sound :
    (hash now : String) (g : Option ℕ) (r : Option String) (s s' : MemoryStore) (c : AuthCodeRecord)
    → consume_auth_code hash now g r s ≡ (ok (some c), s')
    → (get hash s.auth_codes ≡ some c)
      × (text_lt now c.expires_at ≡ true)
      × (meets_generation g c.grant_generation ≡ true)
      × (meets r (some c.resource) ≡ true)
      × (s' ≡ record s { auth_codes = remove hash s.auth_codes })
unfolding consume_auth_code
consume_sound hash now g r s s' c h = ground arith

-- `commitConsentApproval` either stores the code and the JTI together, or changes nothing; and a
-- consent for another store instance, or one whose JTI is taken or swept, is never stored.
pub commit_atomic :
    (expected jti expires_at : String) (code : SaveAuthCodeInput) (s : MemoryStore)
    → let (r, s') = commit_consent_approval expected jti expires_at code s in
      ((r ≡ ok stored)
        × (expected ≡ s.store_instance_id)
        × (get jti s.consent_jtis ≡ none)
        × (swept s.swept_through expires_at ≡ false)
        × (s' ≡ record s {
          consent_jtis = put jti expires_at s.consent_jtis;
          auth_codes = put code.code_hash (stamp_code code) s.auth_codes;
        }))
      ⊎ ((r ≢ ok stored) × (s' ≡ s))
unfolding commit_consent_approval
commit_atomic expected jti expires_at code s = ground (arith, eq_iff expected s.store_instance_id)

-- A consent JTI is used: it is recorded with its expiry, or its expiry lies behind the sweeps.
abbrev pub IsUsed : String → String → MemoryStore → Type 0
IsUsed jti expires_at s =
    (get jti s.consent_jtis ≡ some expires_at) ⊎ (swept s.swept_through expires_at ≡ true)

pub commit-IsUsed :
    (expected jti expires_at : String) (code : SaveAuthCodeInput) (s : MemoryStore)
    → (commit_consent_approval expected jti expires_at code s).0 ≡ ok stored
    → IsUsed jti expires_at (commit_consent_approval expected jti expires_at code s).1
unfolding commit_consent_approval
commit-IsUsed expected jti expires_at code s h =
    ground (arith, get-put jti jti expires_at s.consent_jtis, eq_iff jti jti)

pub used-not-stored :
    (expected jti expires_at : String) (code : SaveAuthCodeInput) (s : MemoryStore)
    → IsUsed jti expires_at s
    → (commit_consent_approval expected jti expires_at code s).0 ≢ ok stored
unfolding commit_consent_approval
used-not-stored expected jti expires_at code s h = ground arith

pub used-not-consumed :
    (jti expires_at : String) (s : MemoryStore)
    → IsUsed jti expires_at s
    → (consume_consent_jti jti expires_at s).0 ≢ ok true
unfolding consume_consent_jti
used-not-consumed jti expires_at s h = ground arith

module _ (jti expires_at : String) where
  pub put-IsUsed :
      (k t : String) (s : MemoryStore)
      → get k s.consent_jtis ≡ none
      → IsUsed jti expires_at s
      → IsUsed jti expires_at (record s { consent_jtis = put k t s.consent_jtis })
  put-IsUsed k t s fresh h = ground (arith, get-put k jti t s.consent_jtis, eq_iff k jti)

  pub commit_step-IsUsed :
      (expected k t : String) (code : SaveAuthCodeInput) (s : MemoryStore)
      → IsUsed jti expires_at s
      → IsUsed jti expires_at (commit_consent_approval expected k t code s).1
  unfolding commit_consent_approval
  commit_step-IsUsed expected k t code s h = ground (arith, put-IsUsed k t s)

  pub consume_jti-IsUsed :
      (k t : String) (s : MemoryStore)
      → IsUsed jti expires_at s
      → IsUsed jti expires_at (consume_consent_jti k t s).1
  unfolding consume_consent_jti
  consume_jti-IsUsed k t s h = ground (arith, put-IsUsed k t s)
