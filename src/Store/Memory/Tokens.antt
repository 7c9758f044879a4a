-- ===== src/Store/Memory/Tokens.antt =====
-- store/memory.ts: saving and finding refresh tokens, and revoking a family.
use mcp_sso.Common.{
  String, Option, none, some, Bool, true, not, ◌&&◌, if◌then◌else◌, meets, is_none,
}
use mcp_sso.Errors
use mcp_sso.Errors.{Result, ok, err, store_input}
use mcp_sso.Exec.{lift, gets, modify, ◌>>=◌, ◌>>◌}
use mcp_sso.Dict.{Dict, get, has, put}
use mcp_sso.Store.{RefreshTokenRecord, SaveRefreshTokenInput, same_generation}
use mcp_sso.Store.Checks.{
  assert_store_subject, assert_utc_iso_timestamp, assert_refresh_resource,
  grant_generation_for_write, normalize_refresh_token_write, validate_refresh_token,
}
use mcp_sso.Store.Memory.State.{
  StoredRefresh, StoredFamily, MemoryStore, Op, same_text, ensure_open,
}

-- `{ ...input, grantGeneration, consumedAt: null }`
abbrev pub stamp_token : SaveRefreshTokenInput → StoredRefresh
stamp_token input = record {
  token = record input { grant_generation = grant_generation_for_write input.grant_generation };
  consumed_at = none;
}

abbrev pub family_for : StoredRefresh → StoredFamily
family_for row = record {
  revoked_at = none;
  grant_generation = row.grant_generation;
  resource = row.resource;
}

abbrev pub agrees : StoredFamily → StoredRefresh → Bool
agrees f row =
    same_generation f.grant_generation row.grant_generation && same_text f.resource row.resource

abbrev pub add_family : StoredRefresh → Option StoredFamily → Dict StoredFamily → Dict StoredFamily
add_family row none d = put row.family_id (family_for row) d
add_family row (some f) d = d

-- Whether the family of a row, if there is one, is bound as the row is.
abbrev pub admits : Option StoredFamily → StoredRefresh → Bool
admits none row = true
admits (some f) row = agrees f row

-- The part of `saveRefreshToken` behind the checks.
unfoldable pub insert_token : StoredRefresh → Op (Unit {0})
insert_token row s =
    if has row.token_hash s.refresh_tokens
    then (err (store_input "tokenHash already exists"), s)
    else if not (admits (get row.family_id s.families) row)
    then (err (store_input "family grantGeneration or resource mismatch"), s)
    else (
      ok tt,
      record s {
        families = add_family row (get row.family_id s.families) s.families;
        refresh_tokens = put row.token_hash row s.refresh_tokens;
      },
    )

-- The checks of an input, which give its normal form.
unfoldable pub checked_input : SaveRefreshTokenInput → Result SaveRefreshTokenInput
checked_input given =
    Errors.◌>>=◌ (normalize_refresh_token_write given)
      λ input. Errors.◌>>◌ (validate_refresh_token input true) (ok input)

unfoldable pub save_refresh_token : SaveRefreshTokenInput → Op (Unit {0})
unfolding ensure_open insert_token
save_refresh_token given = do
  ensure_open
  input ← lift (checked_input given)
  insert_token (stamp_token input)

abbrev pub revoke_at : String → Option String → StoredFamily → StoredFamily
revoke_at now resource f =
    if is_none f.revoked_at && meets resource f.resource
    then record f { revoked_at = some now }
    else f

abbrev pub revoke_found :
    String → String → Option String → Option StoredFamily → MemoryStore → MemoryStore
revoke_found id now resource none s = s
revoke_found id now resource (some f) s = record s {
  families = put id (revoke_at now resource f) s.families;
}

abbrev pub assert_expected_resource : Option String → Result (Unit {0})
assert_expected_resource none = ok tt
assert_expected_resource (some r) = assert_refresh_resource (some r) "expectedResource"

unfoldable pub revoke_refresh_token_family : String → String → Option String → Op (Unit {0})
unfolding ensure_open
revoke_refresh_token_family id now resource = do
  ensure_open
  lift (assert_utc_iso_timestamp now "revokedAtIso")
  lift (assert_expected_resource resource)
  modify (λ s. revoke_found id now resource (get id s.families) s)

abbrev found_token : Option StoredRefresh → Result (Option RefreshTokenRecord)
found_token none = ok none
found_token (some t) = elim (assert_store_subject t.subject "stored subject") [
  | err e ↦ err e
  | ok _ ↦ ok (some t.token)
]

unfoldable pub find_refresh_token : String → Op (Option RefreshTokenRecord)
unfolding ensure_open
find_refresh_token hash = do
  ensure_open
  found ← gets (λ s. get hash s.refresh_tokens)
  lift (found_token found)
