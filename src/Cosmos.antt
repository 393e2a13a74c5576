-- ===== src/Cosmos.antt =====
-- internal/coord/cosmosdb/cosmosdb.go: the lease of a feed as a document that is reclaimed under its
-- etag.
pub mod Server
pub mod Leases
pub mod Held
pub mod Steps
pub mod Fresh
pub mod Runs
pub mod Exclusion
