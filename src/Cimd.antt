-- ===== src/Cimd.antt =====
-- src/cimd: client-id metadata documents: validation, registration, cache, and single flight.
pub mod Json
pub mod Document
pub mod Registration
pub mod Cache
pub mod Waiters
pub mod Flight
