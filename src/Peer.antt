-- ===== src/Peer.antt =====
-- peer_cache: the proxies that a pool passes on to its peers, and those that it has from one.
pub mod Policy
pub mod Store
pub mod Monitor
pub mod Receipts
