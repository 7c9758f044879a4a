-- ===== src/Lib.antt =====
-- A verification library of mcp-sso: an OAuth authorization bridge for MCP servers.
--
-- The program: the authorization use case (authorize.ts) turns a verified identity and a consent
-- into an authorization code; the token use case (token.ts) turns codes and refresh tokens into
-- access tokens; both keep their grants in a store (ports/store.ts, store/memory.ts).
--
-- The files:
--   Common, Dict, Exec, Errors: shared tests and lists, JavaScript's Map, code that changes a state
--     and may throw, and the errors (src/errors.ts, src/cimd/errors.ts, src/port-failure.ts).
--   Subject: the shape of a subject (src/identity-boundary.ts).
--   Store, Store.Checks: the records and the checks of src/ports/store.ts.
--   Store.Memory: MemoryStore of src/store/memory.ts, one function per method, with the arguments in
--     the source's order. A method is an action on the state; an async method runs to its end
--     before the next one starts, since none of them awaits anything but another method.
--     `Store.Memory.step` is one call and `run` a sequence of calls.
--   Scopes: src/scopes.ts, an argument of type unknown being a string or a list of strings.
--   Redirect.Entry, Redirect.Policy: src/redirect-entry.ts and src/redirect.ts, whose URL parser is
--     a parameter.
--   Token: the grants of src/token.ts and src/token-revoke.ts over the store.
--   Clock, Consent: the readings of the clock (src/ports/clock.ts, src/numeric-date.ts) and the claims of
--     the consent token (src/crypto.ts), over a JWT library that is a parameter.
--   Authorize: prepare() and approve() of src/authorize.ts with the checks of
--     src/authorize-internals.ts and src/client-registration.ts, over the store.
--   Cimd: client-id metadata documents. Json, Document, Registration: src/cimd/document.ts and
--     src/cimd/registration.ts; Cache, Waiters: src/cimd/cache.ts and src/cimd/waiters.ts; Flight:
--     src/cimd/resolve.ts and src/cimd/anti-oracle.ts, where a caller's steps between two awaits are
--     one event and events come in any order.
--   Hierarchy: hierarchyImplies of src/scope-hierarchy.ts, with fuel for one expansion of each scope, and
--     the loop over a policy's rows at boot (without the test for cycles).
--   Pairing: src/identity/console-pairing.ts, as events on the session that is being paired.
--
-- Conventions: a text is a sequence of Unicode scalar values, so a string with a lone surrogate is
-- outside the model; a getter that runs code of the caller while it is read is too. Random values
-- are arguments. A loop is recursion on its list; only the search of the hierarchy takes fuel.
-- Not modelled: machine clients, dynamic registration, the address blocklist and URL admission of
-- client-id documents; the SQL stores, the HTTP adapters, the identity providers and the audit sinks,
-- which are glue and I/O.
pub mod Authorize
pub mod Cimd
pub mod Clock
pub mod Common
pub mod Consent
pub mod Dict
pub mod Errors
pub mod Exec
pub mod Hierarchy
pub mod Pairing
pub mod Redirect
pub mod Scopes
pub mod Store
pub mod Subject
pub mod Token
