-- ===== src/Leaky.antt =====
-- The leaky bucket of algorithms.go.
pub mod Answer
pub mod Terms
pub mod Schedule
pub mod New
pub mod Bucket
pub mod Decision
pub mod Whole
pub mod Capped
pub mod Invariant
