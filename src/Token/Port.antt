-- ===== src/Token/Port.antt =====
-- callPort around the calls of the store.
use mcp_sso.Common.{String, ◌≡◌}
use mcp_sso.Errors.{Result, ok, err, call_port}
use mcp_sso.Store.Memory.State.{MemoryStore}
use mcp_sso.Token.Grants.{port}

module _ {ℓ} {A : Type ℓ} where
  -- A call that returned has returned from the store.
  pub port-passed :
      (operation : String) (m : Result A × MemoryStore) (a : A) (s' : MemoryStore)
      → port operation m ≡ (ok a, s')
      → m ≡ (ok a, s')
  unfolding call_port
  port-passed operation (ok b, s) a s' h = h
  port-passed operation (err e, s) a s' h = cc
