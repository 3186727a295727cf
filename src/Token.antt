-- ===== src/Token.antt =====
-- The token bucket of algorithms.go.
pub mod Bucket
pub mod Decision
pub mod Live
pub mod Window
pub mod Fresh
pub mod Invariant
