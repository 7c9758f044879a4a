-- ===== src/Redirect.antt =====
-- redirect-entry.ts and redirect.ts: the grammar of redirect entries, and the policies over them.
-- The children hold the two files. The URL parser of the platform is a parameter.
pub mod Entry
pub mod Policy
pub mod Spelling
pub mod Parts
pub mod Laws
mod Tests
