-- ===== src/Store/Memory/Rotation.antt =====
-- store/memory.ts: rotateRefreshToken.
use mcp_sso.Common.{
  ℕ, String, Option, none, some, Bool, false, not, ◌&&◌, ◌||◌, ◌==◌, if◌then◌else◌, text_lt,
  is_text, meets,
}
use mcp_sso.Errors
use mcp_sso.Errors.{Result, ok, ok}
use mcp_sso.Exec.{pure, lift, gets, modify, ◌>>=◌, ◌>>◌}
use mcp_sso.Dict.{Dict, get, has, put}
use mcp_sso.Store.{
  RefreshTokenRecord, SaveRefreshTokenInput, unbound_refresh_resource, meets_generation,
}
use mcp_sso.Store.Checks.{assert_store_subject, normalize_refresh_token_write, validate_rotation}
use mcp_sso.Store.Memory.State.{StoredRefresh, StoredFamily, MemoryStore, Op, truthy, ensure_open}
use mcp_sso.Store.Memory.Tokens.{save_refresh_token, revoke_refresh_token_family}

-- The refusals of `rotateRefreshToken` that come before the replay test.
abbrev pub is_bound : Option String → Option String → Option String → Bool
is_bound expected none family = false
is_bound expected (some r) family =
    not (r == unbound_refresh_resource) && is_text family r && meets expected (some r)

abbrev pub may_rotate : Option ℕ → Option String → StoredRefresh → StoredFamily → Bool
may_rotate generation resource current family =
    not (truthy family.revoked_at)
    && meets_generation generation family.grant_generation
    && meets_generation generation current.grant_generation
    && is_bound resource current.resource family.resource

-- The successor that is saved: identity and resource come from the consumed row.
abbrev pub successor : SaveRefreshTokenInput → StoredRefresh → SaveRefreshTokenInput
successor next current = record next {
  client_id = current.client_id;
  subject = current.subject;
  resource = current.resource;
  scopes = current.scopes;
  grant_generation = current.grant_generation;
}

abbrev pub consume_token : String → String → StoredRefresh → MemoryStore → MemoryStore
consume_token hash now current s = record s {
  refresh_tokens = put hash (record current { consumed_at = some now }) s.refresh_tokens;
}

-- Consuming the row and saving its successor.
unfoldable pub rotate_current :
    String → SaveRefreshTokenInput → String → StoredRefresh → Op (Option RefreshTokenRecord)
rotate_current hash next now current = do
  modify (consume_token hash now current)
  save_refresh_token (successor next current)
  pure (some current.token)

-- The tests behind the replay test: expiry, family, and a successor hash that is taken.
unfoldable pub rotate_live :
    String → SaveRefreshTokenInput → String → StoredRefresh → Op (Option RefreshTokenRecord)
rotate_live hash next now current s =
    if not (text_lt now current.expires_at)
      || not (next.family_id == current.family_id)
      || has next.token_hash s.refresh_tokens
    then (ok none, s)
    else rotate_current hash next now current s

-- A consumed row is a replay: its family is revoked.
unfoldable pub rotate_replayed : String → StoredRefresh → Op (Option RefreshTokenRecord)
rotate_replayed now current = do revoke_refresh_token_family current.family_id now none; pure none

-- The rotation of a row that was found with its family.
unfoldable pub rotate_found :
    String
    → SaveRefreshTokenInput
    → String
    → Option ℕ
    → Option String
    → StoredRefresh
    → StoredFamily
    → Op (Option RefreshTokenRecord)
rotate_found hash next now generation resource current family = do
  lift (assert_store_subject current.subject "stored subject")
  if not (may_rotate generation resource current family)
      then pure none
      else if truthy current.consumed_at
      then rotate_replayed now current
      else rotate_live hash next now current

-- The row and its family, if both are there.
abbrev pub pair_family : StoredRefresh → Option StoredFamily → Option (StoredRefresh × StoredFamily)
pair_family t none = none
pair_family t (some f) = some (t, f)

abbrev pub with_family :
    Option StoredRefresh → Dict StoredFamily → Option (StoredRefresh × StoredFamily)
with_family none d = none
with_family (some t) d = pair_family t (get t.family_id d)

abbrev pub rotate_if :
    String
    → SaveRefreshTokenInput
    → String
    → Option ℕ
    → Option String
    → Option (StoredRefresh × StoredFamily)
    → Op (Option RefreshTokenRecord)
rotate_if hash next now generation resource none = pure none
rotate_if hash next now generation resource (some (t, f)) =
    rotate_found hash next now generation resource t f

-- The checks of a rotation, which give the normal form of the successor.
unfoldable pub checked_next : String → SaveRefreshTokenInput → String → Result SaveRefreshTokenInput
checked_next hash given now =
    Errors.◌>>=◌ (normalize_refresh_token_write given)
      λ next. Errors.◌>>◌ (validate_rotation hash next now) (ok next)

unfoldable pub rotate_refresh_token :
    String
    → SaveRefreshTokenInput
    → String
    → Option ℕ
    → Option String
    → Op (Option RefreshTokenRecord)
unfolding ensure_open
rotate_refresh_token hash given now generation resource = do
  ensure_open
  next ← lift (checked_next hash given now)
  found ← gets (λ s. with_family (get hash s.refresh_tokens) s.families)
  rotate_if hash next now generation resource found
