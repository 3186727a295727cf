-- ===== src/Client.antt =====
-- peer_client.go: the client through which a server calls one of its peers.
pub mod Errors
pub mod Send
pub mod Answers
pub mod Faults
pub mod Calls
pub mod Left
pub mod Origin
pub mod Batches
pub mod Order
pub mod Drain
