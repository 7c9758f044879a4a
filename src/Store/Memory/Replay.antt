-- ===== src/Store/Memory/Replay.antt =====
-- store/memory.ts: over any sequence of calls a consent JTI and an authorization code are used once.
use mcp_sso.Common.{
  ℕ, String, List, [], ◌∷◌, Option, none, some, true, not, ◌≡◌, ◌≢◌, text_lt, text_lt_trans,
  text_lt_total, arith, eq_iff, All,
}
use mcp_sso.Errors.{ok}
use mcp_sso.Dict.{get}
use mcp_sso.Dict.Laws.{get-put, get-remove, get-retain-some, get-retain-none}
use mcp_sso.Store.{AuthCodeRecord, SaveAuthCodeInput, stored}
use mcp_sso.Store.Memory.State.{MemoryStore}
use mcp_sso.Store.Memory.Codes.{
  swept, stamp_code, commit_consent_approval, save_auth_code, consume_auth_code,
  consume_consent_jti, rotate_store_instance_id,
}
use mcp_sso.Store.Memory.Expiry.{sweep_expired, sweep, advance}
use mcp_sso.Store.Memory.SingleUse.{
  commit_atomic, IsUsed, commit-IsUsed, used-not-stored, commit_step-IsUsed, consume_jti-IsUsed,
  consume_sound,
}
use mcp_sso.Store.Memory.Frame.{
  SameRest, save-SameRest, revoke-SameRest, rotate-SameRest, find-frame, find_scopes-frame,
}
use mcp_sso.Store.Memory.{
  Call, rotates_id, commits, saves_code, consumes_code, consumes_jti, saves_token, rotates, revokes,
  finds, finds_scopes, sweeps, closes, step, run, close,
}

-- The mark of the sweeps only moves forward.
swept-advance :
    (w : Option String) (now t : String) → swept w t ≡ true → swept (advance w now) t ≡ true
swept-advance none now t h = cc
swept-advance (some w) now t h = ground (arith, text_lt_trans t w now)

-- What a sweep drops lies behind its mark.
swept_of_dropped :
    (w : Option String) (now t : String) → text_lt t now ≡ true → swept (advance w now) t ≡ true
swept_of_dropped none now t h = h
swept_of_dropped (some w) now t h = ground (arith, text_lt_total now w, text_lt_trans t now w)

module _ (jti expires_at : String) where
  sweep-IsUsed :
      (now : String) (s : MemoryStore)
      → IsUsed jti expires_at s
      → IsUsed jti expires_at (sweep now s)
  unfolding sweep
  sweep-IsUsed now s h = ground (
    arith,
    get-retain-some (λ t. not (text_lt t now)) jti expires_at s.consent_jtis,
    swept-advance s.swept_through now expires_at,
    swept_of_dropped s.swept_through now expires_at,
  )

  SameRest-IsUsed :
      (s s' : MemoryStore) → SameRest s s' → IsUsed jti expires_at s → IsUsed jti expires_at s'
  SameRest-IsUsed s s' same h = ground arith

  step-IsUsed :
      (c : Call) (s : MemoryStore) → IsUsed jti expires_at s → IsUsed jti expires_at (step c s)
  unfolding step
  step-IsUsed (rotates_id fresh) s h = unfold rotate_store_instance_id in ground arith
  step-IsUsed (commits e k t code) s h = commit_step-IsUsed jti expires_at e k t code s h
  step-IsUsed (saves_code code) s h = unfold save_auth_code in ground arith
  step-IsUsed (consumes_code k now g r) s h = unfold consume_auth_code in ground arith
  step-IsUsed (consumes_jti k t) s h = consume_jti-IsUsed jti expires_at k t s h
  step-IsUsed (saves_token t) s h = SameRest-IsUsed s _ (save-SameRest t s) h
  step-IsUsed (rotates k next now g r) s h =
      SameRest-IsUsed s _ (rotate-SameRest k next now g r s) h
  step-IsUsed (revokes id now r) s h = SameRest-IsUsed s _ (revoke-SameRest id now r s) h
  step-IsUsed (finds k) s h = ground (arith, find-frame k s)
  step-IsUsed (finds_scopes a b now g r) s h = ground (arith, find_scopes-frame a b now g r s)
  step-IsUsed (sweeps now) s h = unfold sweep_expired in ground (arith, sweep-IsUsed now s)
  step-IsUsed closes s h = unfold close in ground arith

  run-IsUsed :
      (cs : List Call) (s : MemoryStore)
      → IsUsed jti expires_at s
      → IsUsed jti expires_at (run cs s)
  unfolding run
  run-IsUsed [] s h = h
  run-IsUsed (c ∷ cs) s h = run-IsUsed cs (step c s) (step-IsUsed c s h)

-- Once an approval is stored under a consent JTI, no later approval under that JTI and expiry is
-- stored, whatever calls, sweeps and instance rotations among them, come in between.
pub consent_never_reused :
    (expected expected' jti expires_at : String) (code code' : SaveAuthCodeInput)
    (s s' : MemoryStore) (cs : List Call)
    → commit_consent_approval expected jti expires_at code s ≡ (ok stored, s')
    → (commit_consent_approval expected' jti expires_at code' (run cs s')).0 ≢ ok stored
consent_never_reused expected expected' jti expires_at code code' s s' cs h =
    used-not-stored expected' jti expires_at code' (run cs s') (
      run-IsUsed jti expires_at cs s'
        (ground (arith, commit-IsUsed expected jti expires_at code s)))

-- The calls that put a code under a hash.
abbrev pub Spares : String → Call → Type 0
Spares hash (commits e k t code) = code.code_hash ≢ hash
Spares hash (saves_code code) = code.code_hash ≢ hash
Spares hash _ = Unit

module _ (hash : String) where
  step-gone :
      (c : Call) (s : MemoryStore)
      → Spares hash c
      → get hash s.auth_codes ≡ none
      → get hash (step c s).auth_codes ≡ none
  unfolding step
  step-gone (rotates_id fresh) s n h = unfold rotate_store_instance_id in ground arith
  step-gone (commits e k t code) s n h = ground (
    arith,
    commit_atomic e k t code s,
    get-put code.code_hash hash (stamp_code code) s.auth_codes,
    eq_iff code.code_hash hash,
  )
  step-gone (saves_code code) s n h =
      unfold save_auth_code in
      ground (
        arith,
        get-put code.code_hash hash (stamp_code code) s.auth_codes,
        eq_iff code.code_hash hash,
      )
  step-gone (consumes_code k now g r) s n h =
      unfold consume_auth_code in ground (arith, get-remove k hash s.auth_codes)
  step-gone (consumes_jti k t) s n h = unfold consume_consent_jti in ground arith
  step-gone (saves_token t) s n h = ground (arith, save-SameRest t s)
  step-gone (rotates k next now g r) s n h = ground (arith, rotate-SameRest k next now g r s)
  step-gone (revokes id now r) s n h = ground (arith, revoke-SameRest id now r s)
  step-gone (finds k) s n h = ground (arith, find-frame k s)
  step-gone (finds_scopes a b now g r) s n h = ground (arith, find_scopes-frame a b now g r s)
  step-gone (sweeps now) s n h =
      unfold sweep_expired in
      ground (
        arith,
        get-retain-none (λ (c : AuthCodeRecord). not (text_lt c.expires_at now)) hash s.auth_codes,
      )
  step-gone closes s n h = unfold close in ground arith

  run-gone :
      (cs : List Call) (s : MemoryStore)
      → All (Spares hash) cs
      → get hash s.auth_codes ≡ none
      → get hash (run cs s).auth_codes ≡ none
  unfolding run
  run-gone [] s n h = h
  run-gone (c ∷ cs) s n h = run-gone cs (step c s) n.1 (step-gone c s n.0 h)

-- A code that was handed out is never handed out again, unless a code with its hash is saved anew.
pub code_never_reused :
    (hash now now' : String) (g g' : Option ℕ) (r r' : Option String) (c c' : AuthCodeRecord)
    (s s' : MemoryStore) (cs : List Call)
    → consume_auth_code hash now g r s ≡ (ok (some c), s')
    → All (Spares hash) cs
    → (consume_auth_code hash now' g' r' (run cs s')).0 ≢ ok (some c')
unfolding consume_auth_code
code_never_reused hash now now' g g' r r' c c' s s' cs h spare = ground (
  arith,
  consume_sound hash now g r s s' c h,
  get-remove hash hash s.auth_codes,
  eq_iff hash hash,
  run-gone hash cs s' spare,
)
