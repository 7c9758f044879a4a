-- ===== src/Token.antt =====
-- token.ts and token-revoke.ts: the token endpoint's grants, over a MemoryStore.
-- The children hold the parts that the use case reads of its environment, and its grants.
pub mod Env
pub mod Grants
pub mod Port
pub mod Code
pub mod Refresh
mod Tests
mod RefreshTests
