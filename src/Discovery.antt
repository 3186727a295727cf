-- ===== src/Discovery.antt =====
-- Discovery of the peers: memberlist.go, etcd.go and dns.go, which end in a call of SetPeers.
pub mod Gossip
pub mod Kubernetes
pub mod Ready
pub mod Gathering
pub mod Etcd
pub mod Dns
pub mod Polling
