-- ===== src/Ownership.antt =====
-- reclaim_ownership/lua.py and the methods of reclaim_ownership/store.py that call its scripts: the
-- case in which the members of a system decide whether a lead was theirs. Each member checks it in
-- up to two rounds, under a job lease.
pub mod Defs
pub mod Frames
pub mod Status
pub mod Rounds
pub mod Replay
pub mod Deadline
