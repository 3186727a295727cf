-- ===== src/Cache.antt =====
-- lrucache.go: the LRU cache that each worker owns.
pub mod Lru
pub mod Elements
pub mod Spec
pub mod Index
pub mod Moves
pub mod Invariant
pub mod Every
pub mod Refinement
pub mod Eviction
pub mod Reload
