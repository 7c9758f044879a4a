-- ===== src/Store/Memory/Valid.antt =====
-- store/memory.ts: the well-formedness of a MemoryStore.
use mcp_sso.Common.{String, Option, none, some, Bool, true, false, ◌≡◌, ◌≢◌, refl, arith, eq_iff}
use mcp_sso.Errors.{ok}
use mcp_sso.Dict.{Dict, get, IsMap}
use mcp_sso.Dict.Laws.{get-put}
use mcp_sso.Store.{Generation, omitted, null, number, SaveRefreshTokenInput, same_generation}
use mcp_sso.Store.Checks.{
  assert_refresh_resource, grant_generation_for_write, validate_refresh_token,
}
use mcp_sso.Store.Memory.State.{MemoryStore, StoredRefresh, StoredFamily, same_text}
use mcp_sso.Store.Memory.Tokens.{agrees, stamp_token, family_for, add_family, admits}

-- A row stands under its own hash, its generation and resource are what a save stores, and its
-- family is there and bound as the row is.
abbrev pub in_family : Option StoredFamily → StoredRefresh → Bool
in_family none t = false
in_family (some f) t = agrees f t

pub record IsFiled (families : Dict StoredFamily) (hash : String) (t : StoredRefresh) : Type 0 where
  pub own_hash : t.token_hash ≡ hash
  pub family : in_family (get t.family_id families) t ≡ true
  pub resource : assert_refresh_resource t.resource "resource" ≡ ok tt
  pub generation : grant_generation_for_write t.grant_generation ≡ t.grant_generation

pub record IsValid (s : MemoryStore) : Type 0 where
  pub tokens_map : IsMap s.refresh_tokens
  pub families_map : IsMap s.families
  pub filed :
      (hash : String) (t : StoredRefresh)
      → get hash s.refresh_tokens ≡ some t
      → IsFiled s.families hash t
  pub marks : (id : String) (f : StoredFamily) → get id s.families ≡ some f → f.revoked_at ≢ some ""

generation_twice :
    (g : Generation)
    → grant_generation_for_write (grant_generation_for_write g) ≡ grant_generation_for_write g
unfolding grant_generation_for_write
generation_twice omitted = refl
generation_twice null = refl
generation_twice (number n) = ground arith

same_generation_refl : (g : Generation) → same_generation g g ≡ true
same_generation_refl omitted = refl
same_generation_refl null = refl
same_generation_refl (number n) = ground arith

same_text_refl : (o : Option String) → same_text o o ≡ true
same_text_refl none = refl
same_text_refl (some s) = ground (arith, eq_iff s s)

family_for-agrees : (row : StoredRefresh) → agrees (family_for row) row ≡ true
family_for-agrees row =
    ground (arith, same_generation_refl row.grant_generation, same_text_refl row.resource)

validated-resource :
    (input : SaveRefreshTokenInput) (b : Bool)
    → validate_refresh_token input b ≡ ok tt
    → assert_refresh_resource input.resource "resource" ≡ ok tt
unfolding validate_refresh_token
validated-resource input b h = ground arith

pub insert-IsFiled :
    (row t : StoredRefresh) (hash : String) (d : Dict StoredFamily)
    → IsFiled d hash t
    → IsFiled (add_family row (get row.family_id d) d) hash t
insert-IsFiled row t hash d h = record {
  own_hash = h.own_hash;
  family = ground (
    arith,
    h.family,
    get-put row.family_id t.family_id (family_for row) d,
    eq_iff row.family_id t.family_id,
  );
  resource = h.resource;
  generation = h.generation;
}

pub stamped-IsFiled :
    (input : SaveRefreshTokenInput) (d : Dict StoredFamily)
    → validate_refresh_token input true ≡ ok tt
    → admits (get input.family_id d) (stamp_token input) ≡ true
    → IsFiled
        (add_family (stamp_token input) (get input.family_id d) d)
        input.token_hash
        (stamp_token input)
stamped-IsFiled input d v a = record {
  own_hash = refl;
  family = ground (
    arith,
    get-put input.family_id input.family_id (family_for (stamp_token input)) d,
    eq_iff input.family_id input.family_id,
    family_for-agrees (stamp_token input),
  );
  resource = validated-resource input true v;
  generation = generation_twice input.grant_generation;
}
