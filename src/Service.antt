-- ===== src/Service.antt =====
-- The server: gubernator.go and the worker pool of workers.go, around the algorithms.
pub mod Validate
pub mod Handlers
pub mod Sound
pub mod Exchange
pub mod Broadcast
pub mod Persist
pub mod Shares
pub mod Restart
pub mod Stored
pub mod Report
pub mod Reported
pub mod Start
pub mod Membership
pub mod Placing
pub mod Members
pub mod Health
pub mod Picks
pub mod Unhealthy
pub mod Route
pub mod Instance
pub mod Forward
pub mod Attempts
