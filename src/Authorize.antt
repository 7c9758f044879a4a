-- ===== src/Authorize.antt =====
-- authorize.ts and authorize-internals.ts: the preparation and the approval of a consent.
pub mod Env
pub mod Client
pub mod Prepare
pub mod Approve
pub mod Frame
pub mod Checks
pub mod Granting
pub mod Preparing
pub mod Plain
pub mod Redirecting
mod Tests
