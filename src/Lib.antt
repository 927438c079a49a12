-- ===== src/Lib.antt =====
-- Verification of IP-Proxy-Pool: a pool of HTTP proxies in Redis, which collectors fill, checkers
-- probe and score under leases, and clients query.
--
-- The parts, and the files that model them:
-- - src/ip_proxy_pool/models.py and checker/errors.py (the records): Models.
-- - src/ip_proxy_pool/checker: Checker/Scoring (`apply_probe_result`), Checker/Scheduling
--   (`next_check_at`), Checker/Breaker (the circuit breaker's Lua scripts), Checker/Probe
--   (`probe_proxy_targets`), Checker/Worker (`_process_lease`, and in Round `run_once`). A worker
--   checks its targets through the circuit breaker, claims, probes a claimed proxy, scores the
--   result, chooses the next check and completes its lease.
-- - src/ip_proxy_pool/storage: Storage/Server (the keys of one domain), Storage/Index (the scores
--   of the selection indexes), Storage/Save (`save_record`, `upsert_verified`, `upsert_candidate`),
--   Storage/Evict (`enforce_capacity`), Storage/Lease (the lease scripts of lua.py and the methods
--   of `RedisRepository` that call them), Storage/Steps (the repository's writes as steps from pool
--   to pool), Storage/Select (`select_random_proxies` and `select_formal_export`),
--   Storage/Listing (`list_proxies`). Storage/Sound, Storage/Reachable, Storage/Exclusive,
--   Storage/Stale and Storage/Capacity prove properties of them, with Storage/Evict/Chosen on the
--   victims and Storage/Select/Verdicts on what is skipped. `upsert_candidate`, `enforce_capacity`
--   and the selection write in a transaction what they decided on earlier reads; these reads are
--   arguments of their steps.
-- - src/ip_proxy_pool/reclaim_ownership: Ownership/Defs (the scripts of lua.py and the part of the
--   success script of store.py that decides cases, on the keys of one case). Ownership/Status has a
--   case's steps and Ownership/Deadline the run of REAP_EXPIRED over many cases; Ownership/Frames, Ownership/Rounds, Ownership/Replay and Ownership/Deadline prove
--   properties of them.
-- - src/ip_proxy_pool/reclaim_quota: Quota/Defs (the script ACQUIRE, and the runs of the server,
--   its restarts included), with Quota/Tracked and Quota/Window on what it admits.
-- - src/ip_proxy_pool/peer_cache: Peer/Policy (policy.py), Peer/Store (store.py with the scripts of
--   lua.py: Sync, Replace, Choice and Failure have the methods, Steps the calls as steps from cache
--   to cache, and Frames, Fencing, Chosen, Counted, Cooldown and Blocked what is proved of them),
--   Peer/Monitor (the state machine of monitor.py, with Fair on its alerts), Peer/Receipts
--   (receipts.py, with Once).
-- - src/ip_proxy_pool/migration.py: Migration (`rebuild`), with Scores and Rebuilt.
-- - src/ip_proxy_pool/api/cursors.py: Api/Cursors, with Padding and Roundtrip.
-- - Base holds the shared names, Redis the commands of the server, and Tests the concrete inputs.
--
-- State and operations: a method or script that changes a store is a function that returns the new
-- store, named as in the source; one script or transaction of the Redis server is one step, which
-- is the atomicity that Redis documents. Redis itself, pydantic's codec and Python's floats are
-- parameters: `HashCommands` and `SetCommands` state the documented laws of the commands, `Server`
-- the round trip of the codec, `Floats` the float operations. Tests/Memory meets them with
-- association lists. `WindowCommands`, for the quota's sorted set, is met in Tests/Quota, and
-- `DeadlineCommands` and `KeyCommands`, for the peer cache, in Tests/PeerMemory. `PeerServer` has
-- the JSON of the scripts, cjson's rounding of times included, and `Codec` the base64, JSON and
-- HMAC of the cursors; `ReceiptServer` has the digests and the JSON of the receipts.
--
-- Times are natural numbers of microseconds, so that a timestamp is exact; a count of seconds is
-- turned into them by `seconds`. The scripts of cases and of the quota count milliseconds, as the
-- source does. Loops over the members of a reply are recursions on the list, and no fuel is needed.
-- The loops of a selection and of a listing, which ask the server until it has nothing more, run on
-- fuel: one round more than a segment has members, and 10,002 rounds, which is enough since each
-- round but the last consumes a member. The loop over the chunks of an eviction runs as often as
-- `range` tells. ValueError is `value_error`.
--
-- Not modelled: HTTP, the dashboard's pages, metrics, logging and configuration, which are input
-- and output; the parsing of addresses and documents by third-party libraries; the expiry of a
-- case's keys after 48 hours and of a circuit's hash; the counter of the check errors of all
-- cases; the counts and scans of the repository, the receipts of successes, the network side of the
-- peer cache, the collector, the import of old lists, rate limits and roles, and the routes of the API.
pub mod Base
pub mod Redis
pub mod Models
pub mod Checker
pub mod Storage
pub mod Ownership
pub mod Quota
pub mod Peer
pub mod Api
pub mod Migration
pub mod Tests
