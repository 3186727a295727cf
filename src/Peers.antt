-- ===== src/Peers.antt =====
-- replicated_hash.go and region_picker.go: which peer owns a key.
pub mod Search
pub mod Hash
pub mod Successor
pub mod Joins
pub mod Region
