-- ===== src/Global.antt =====
-- global.go: the asynchronous hits and broadcasts of GLOBAL rate limits.
pub mod Hits
pub mod Conserved
pub mod Batches
pub mod Send
