-- ===== src/Store/Memory/State.antt =====
-- store/memory.ts: the state of a MemoryStore. A method is an action on the store, and what it
-- wrote before a throw stays written.
use mcp_sso.Common.{String, [], Option, none, some, Bool, true, false, not, ◌==◌, if◌then◌else◌}
use mcp_sso.Errors.{ok, err, plain}
use mcp_sso.Exec.{Exec}
use mcp_sso.Dict.{Dict}
use mcp_sso.Store.{Generation, AuthCodeRecord, RefreshTokenRecord}

pub record StoredRefresh : Type 0 where
  pub token : RefreshTokenRecord
  pub open token use *
  pub consumed_at : Option String

pub record StoredFamily : Type 0 where
  pub revoked_at : Option String
  pub grant_generation : Generation
  pub resource : Option String

pub record MemoryStore : Type 0 where
  pub closed : Bool
  pub auth_codes : Dict AuthCodeRecord
  pub refresh_tokens : Dict StoredRefresh
  pub families : Dict StoredFamily
  pub consent_jtis : Dict String
  pub swept_through : Option String
  pub store_instance_id : String

-- `new MemoryStore()`
abbrev pub create_memory_store : String → MemoryStore
create_memory_store id = record {
  closed = false;
  auth_codes = [];
  refresh_tokens = [];
  families = [];
  consent_jtis = [];
  swept_through = none;
  store_instance_id = id;
}

abbrev pub Op : Type 0 → Type 0
Op A = Exec MemoryStore A

-- A string or null as a condition.
abbrev pub truthy : Option String → Bool
truthy none = false
truthy (some s) = not (s == "")

-- `a === b` where both may be null.
abbrev pub same_text : Option String → Option String → Bool
same_text none none = true
same_text (some a) (some b) = a == b
same_text _ _ = false

unfoldable pub ensure_open : Op (Unit {0})
ensure_open s = if s.closed then (err (plain "Store is closed"), s) else (ok tt, s)
