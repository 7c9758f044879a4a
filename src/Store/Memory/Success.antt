-- ===== src/Store/Memory/Success.antt =====
-- store/memory.ts: a rotation that may succeed does, and one that throws has changed nothing.
use mcp_sso.Common.{ℕ, String, Option, none, some, true, false, ◌≡◌, refl, arith, eq_iff}
use mcp_sso.Errors.{ok}
use mcp_sso.Dict.{get, put}
use mcp_sso.Dict.Laws.{get-put}
use mcp_sso.Store.{Generation, omitted, null, number, SaveRefreshTokenInput}
use mcp_sso.Store.Checks.{
  assert_utc_iso_timestamp, assert_store_subject, assert_sha256_hex, assert_grant_generation,
  assert_previous, validate_rotation, validate_refresh_token, normalize_refresh_token_write,
  grant_generation_for_write,
}
use mcp_sso.Store.Memory.State.{MemoryStore, StoredRefresh, StoredFamily}
use mcp_sso.Store.Memory.Tokens.{save_refresh_token, checked_input, stamp_token, agrees}
use mcp_sso.Store.Memory.Rotation.{
  rotate_refresh_token, rotate_found, rotate_live, rotate_current, checked_next, consume_token,
  successor,
}
use mcp_sso.Store.Memory.Rotating.{IsFound, IsLive}
use mcp_sso.Store.Memory.Valid.{IsFiled}

next_checks :
    (hash now : String) (given next : SaveRefreshTokenInput)
    → checked_next hash given now ≡ ok next
    → (assert_sha256_hex next.token_hash "tokenHash" ≡ ok tt)
      × (assert_previous next.previous_token_hash ≡ ok tt)
      × (assert_utc_iso_timestamp next.expires_at "expiresAt" ≡ ok tt)
unfolding checked_next validate_rotation validate_refresh_token
next_checks hash now given next e = ground arith

stored_generation :
    (g : Generation)
    → grant_generation_for_write g ≡ g
    → assert_grant_generation g "grantGeneration" ≡ ok tt
unfolding grant_generation_for_write assert_grant_generation
stored_generation omitted h = refl
stored_generation null h = refl
stored_generation (number n) h = ground arith

subject_relabelled :
    (v : String)
    → assert_store_subject v "stored subject" ≡ ok tt
    → assert_store_subject v "subject" ≡ ok tt
unfolding assert_store_subject
subject_relabelled v h = ground arith

-- The successor's row: its own hashes, family and date, and all else from the consumed row.
abbrev pub successor_row : SaveRefreshTokenInput → StoredRefresh → StoredRefresh
successor_row next t = record {
  token = record {
    token_hash = next.token_hash;
    family_id = next.family_id;
    previous_token_hash = next.previous_token_hash;
    client_id = t.client_id;
    subject = t.subject;
    resource = t.resource;
    scopes = t.scopes;
    expires_at = next.expires_at;
    grant_generation = t.grant_generation;
  };
  consumed_at = none;
}

-- The store after a rotation: the row is dated, and the successor stands under its hash.
abbrev pub rotated :
    (hash now : String) → SaveRefreshTokenInput → MemoryStore → StoredRefresh → MemoryStore
rotated hash now next s t = record s {
  refresh_tokens =
      put next.token_hash (successor_row next t)
        (put hash (record t { consumed_at = some now }) s.refresh_tokens);
}

-- The successor of a row passes the checks of a save.
module _ (hash now : String) (given next : SaveRefreshTokenInput) (g : Option ℕ) (r : Option String)
    (s : MemoryStore) (t : StoredRefresh) (f : StoredFamily)
    (checked : checked_next hash given now ≡ ok next) (filed : IsFiled s.families hash t)
    (found : IsFound hash g r s t f) where
  validate-successor : validate_refresh_token (successor next t) true ≡ ok tt
  unfolding validate_refresh_token
  validate-successor = ground (
    arith,
    next_checks hash now given next checked,
    stored_generation t.grant_generation filed.generation,
    subject_relabelled t.subject found.subject,
    filed.resource,
  )

  normalize-successor : normalize_refresh_token_write (successor next t) ≡ ok (successor next t)
  unfolding normalize_refresh_token_write
  normalize-successor = ground (arith, found.bound, filed.resource)

  checked-successor : checked_input (successor next t) ≡ ok (successor next t)
  unfolding checked_input
  checked-successor = ground (arith, validate-successor, normalize-successor)

  module _ (live : IsLive next now s t) where
    stamp-successor : stamp_token (successor next t) ≡ successor_row next t
    stamp-successor = rw filed.generation refl

    successor-absent : get next.token_hash (consume_token hash now t s).refresh_tokens ≡ none
    successor-absent = ground (
      arith,
      found.row,
      live.fresh,
      get-put hash next.token_hash (record t { consumed_at = some now }) s.refresh_tokens,
      eq_iff hash next.token_hash,
    )

    successor-family : get next.family_id s.families ≡ some f
    successor-family = ground (arith, live.family, found.family)

    successor-agrees : agrees f (stamp_token (successor next t)) ≡ true
    successor-agrees = ground (arith, filed.generation, filed.family, found.family)

    save-successor :
        s.closed ≡ false
        → save_refresh_token (successor next t) (consume_token hash now t s)
          ≡ (ok tt, rotated hash now next s t)
    unfolding save_refresh_token
    save-successor o = ground (
      arith, checked-successor, successor-absent, successor-family, successor-agrees,
      stamp-successor,
    )

    -- A rotation of a live row, with a successor that passes the checks, returns the consumed
    -- record; the row is dated, the successor stands under its hash with the client, subject, resource, scopes and generation of
    -- the consumed row and its own family, hashes and date, and
    -- nothing else in the store changes.
    pub rotate_succeeds :
        s.closed ≡ false
        → rotate_refresh_token hash given now g r s ≡ (ok (some t.token), rotated hash now next s t)
    unfolding rotate_refresh_token rotate_found rotate_live rotate_current
    rotate_succeeds o = ground (
      arith,
      checked,
      found.subject,
      found.row,
      found.family,
      found.bound,
      live.unused,
      live.in_date,
      live.family,
      live.fresh,
      eq_iff next.family_id t.family_id,
      save-successor o,
    )
