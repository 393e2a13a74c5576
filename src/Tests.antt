-- ===== src/Tests.antt =====
-- Concrete inputs for the theorems.
mod Fixtures
mod Fleet
mod Delivery
mod Poll
mod Storage
mod Sources
mod Leases
mod Graph
mod Checks
mod Reclaim
mod Pruned
mod Fetches
mod Redis
mod Served
mod Proxied
mod Settings
