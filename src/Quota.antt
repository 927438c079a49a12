-- ===== src/Quota.antt =====
-- reclaim_quota/lua.py and reclaim_quota/store.py: at most five reclaims in a minute, over all
-- clients.
pub mod Defs
pub mod Tracked
pub mod Window
