-- ===== src/Tests.antt =====
-- Runs on concrete inputs: a float64 of whole numbers, a clock of milliseconds, no store.
pub mod Values
pub mod Buckets
pub mod Caches
pub mod Pools
pub mod Servers
pub mod Calls
pub mod Clients
pub mod Clusters
pub mod Settings
pub mod Sorting
pub mod Reports
