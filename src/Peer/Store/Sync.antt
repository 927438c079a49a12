-- ===== src/Peer/Store/Sync.antt =====
-- The lock and the generation of a sync, and what the hash `state` counts.
use ip_proxy_pool.Base.{
  ℕ, ◌+◌, Bool, Option, none, some, String, ltb, ◌==◌, ◌&&◌, str_eq, not, if◌then◌else◌,
}
use ip_proxy_pool.Models.{Floats, seconds}
use ip_proxy_pool.Storage.Server.{Result, ok, ◌>>◌, require}
use ip_proxy_pool.Peer.Store.{PeerServer, Cache, Lock}

-- Whether the lock is still there and is that of an owner and a generation.
unfoldable pub is_held_by : (clock : ℕ) → Option Lock → (owner : String) → (generation : ℕ) → Bool
is_held_by clock none owner generation = Bool.false
is_held_by clock (some l) owner generation =
    ltb clock l.deadline && (str_eq l.owner owner && (l.generation == generation))

abbrev pub is_there : (clock : ℕ) → Option Lock → Bool
is_there clock none = Bool.false
is_there clock (some l) = ltb clock l.deadline

module _ (fl : Floats) (sv : PeerServer fl) where
  -- `begin_sync` and BEGIN_SYNC: 0 of the script is `none`.
  unfoldable pub begin_sync :
      (clock : ℕ) → (owner : String) → Cache fl sv → Result (Option ℕ × Cache fl sv)
  begin_sync clock owner s =
      let next = s.generation + 1 in
      require (not (str_eq owner ""))
      >> (if is_there clock s.lock
          then ok (none, s)
          else ok (
            some next,
            record s {
              generation = next;
              lock =
                  some (record { owner = owner; generation = next; deadline = clock + seconds 10 });
            },
          ))

  -- `abort_sync` and ABORT_SYNC.
  unfoldable pub abort_sync :
      (clock : ℕ) → (generation : ℕ) → (owner : String) → Cache fl sv → Cache fl sv
  abort_sync clock generation owner s =
      if is_held_by clock s.lock owner generation then record s { lock = none } else s

  unfoldable pub note_failure : (outcome : String) → (now : ℕ) → Cache fl sv → Cache fl sv
  note_failure outcome now s = record s {
    state = record s.state {
      consecutive_failures = s.state.consecutive_failures + 1;
      last_attempt_at = some now;
      heartbeat_at = some now;
      last_outcome = some outcome;
    };
  }

  unfoldable pub heartbeat : (now : ℕ) → Cache fl sv → Cache fl sv
  heartbeat now s = record s { state = record s.state { heartbeat_at = some now } }

  unfoldable pub note_api_result : (success : Bool) → Cache fl sv → Cache fl sv
  note_api_result success s = record s {
    state = record s.state {
      api_store_failures = if success then 0 else s.state.api_store_failures + 1;
    };
  }
