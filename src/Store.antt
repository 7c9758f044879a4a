-- ===== src/Store.antt =====
-- ports/store.ts: the records that a store keeps, and the checks at its boundary.
-- `omitted` is JavaScript's undefined. A number of a generation is a natural number.
pub mod Checks
pub mod Memory
use mcp_sso.Common.{ℕ, String, List, Option, Bool, true, false, nat_eq, none, some}

pub data Generation : Type 0 where
  omitted null : Generation
  number : ℕ → Generation

pub record AuthCodeRecord : Type 0 where
  pub code_hash : String
  pub client_id : String
  pub subject : String
  pub redirect_uri : String
  pub resource : String
  pub scopes : List String
  pub code_challenge : String
  pub code_challenge_method : String
  pub expires_at : String
  pub grant_generation : Generation

-- What a caller saves has the same fields as the record.
abbrev pub SaveAuthCodeInput : Type 0
SaveAuthCodeInput = AuthCodeRecord

pub record RefreshTokenRecord : Type 0 where
  pub token_hash : String
  pub family_id : String
  pub previous_token_hash : Option String
  pub client_id : String
  pub subject : String
  pub resource : Option String
  pub scopes : List String
  pub expires_at : String
  pub grant_generation : Generation

-- In an input `none` is a resource that the caller omitted.
abbrev pub SaveRefreshTokenInput : Type 0
SaveRefreshTokenInput = RefreshTokenRecord

pub data ConsentApprovalCommitResult : Type 0 where
  stored replayed binding_mismatch : ConsentApprovalCommitResult

abbrev pub stored_dcr_grant_generation : ℕ
stored_dcr_grant_generation = 1

abbrev pub stored_dcr_resource_binding : ℕ
stored_dcr_resource_binding = 1

abbrev pub unbound_refresh_resource : String
unbound_refresh_resource = "mcp-sso:unbound-refresh-resource"

-- `expected === undefined || value === expected`
abbrev pub meets_generation : Option ℕ → Generation → Bool
meets_generation none g = true
meets_generation (some e) omitted = false
meets_generation (some e) null = false
meets_generation (some e) (number n) = nat_eq n e

-- `a === b` on generations.
abbrev pub same_generation : Generation → Generation → Bool
same_generation omitted omitted = true
same_generation null null = true
same_generation (number m) (number n) = nat_eq m n
same_generation _ _ = false
