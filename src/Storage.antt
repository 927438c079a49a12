-- ===== src/Storage.antt =====
-- storage/repository.py and the scripts of storage/lua.py: the Redis keys of one target domain.
pub mod Server
pub mod Index
pub mod Save
pub mod Lease
pub mod Steps
pub mod Sound
pub mod Reachable
pub mod Exclusive
pub mod Stale
pub mod Evict
pub mod Select
pub mod Listing
pub mod Capacity
