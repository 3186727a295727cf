-- ===== src/Workers.antt =====
-- workers.go: the worker pool, which shares the keys out over the workers by hash ranges.
pub mod Ring
pub mod Commands
pub mod Reload
