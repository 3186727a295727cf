-- ===== src/Types.antt =====
-- The messages and stored items: gubernator.proto (as gubernator.pb.go declares them), store.go,
-- cache.go, gubernator.go.
mod Messages
mod Items
pub mod Flags
unfoldable pub use Messages.*
unfoldable pub use Items.*
