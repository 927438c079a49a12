-- ===== src/Peer/Monitor.antt =====
-- peer_cache/monitor.py: the events of a peer cache, and the alerts that are sent of them.
pub mod Fair
use ip_proxy_pool.Base.{
  ℕ, ◌+◌, ◌-◌, max, Bool, true, false, not, ◌&&◌, ◌||◌, Option, none, some, String, leb, ltb, ◌==◌,
  if◌then◌else◌,
}
use ip_proxy_pool.Models.{seconds}

-- EVENT_TYPES.
pub data EventType : Type 0 where
  sync_failure cache_low cache_evictions worker_stale cache_store_error : EventType

pub data Kind : Type 0 where
  failure recovery : Kind

pub record EventState : Type 0 where
  pub active : Bool
  pub notified : Bool
  pub pending : Option Kind
  pub event_id : String
  pub started_at : ℕ
  pub retry_at : ℕ
  pub attempts : ℕ
  pub last_sent_at : ℕ
  pub last_failure_sent_at : ℕ

abbrev pub new_event : EventState
new_event = record {
  active = false;
  notified = false;
  pending = none;
  event_id = "";
  started_at = 0;
  retry_at = 0;
  attempts = 0;
  last_sent_at = 0;
  last_failure_sent_at = 0;
}

-- What one tick finds: the time, the last success of a sync, how many proxies are valid where that
-- could be counted, a new id, and whether a send would succeed.
pub record Reading : Type 0 where
  pub epoch : ℕ
  pub last_success : ℕ
  pub valid_count : Option ℕ
  pub new_id : String
  pub sent : Bool

abbrev has_five : Option ℕ → Bool
has_five none = false
has_five (some n) = leb 5 n

unfoldable pub recovery_allowed : EventType → Reading → EventState → Bool
recovery_allowed EventType.sync_failure r s = ltb s.started_at r.last_success
recovery_allowed EventType.worker_stale r s = ltb s.started_at r.last_success
recovery_allowed EventType.cache_low r s = ltb s.started_at r.last_success && has_five r.valid_count
recovery_allowed EventType.cache_evictions r s =
    ltb s.started_at r.last_success && has_five r.valid_count
recovery_allowed EventType.cache_store_error r s = true

abbrev pub again : EventState → EventState
again s = record s { active = true; pending = none; retry_at = 0; attempts = 0 }

abbrev pub begun : Reading → EventState → EventState
begun r s = record s {
  active = true;
  pending = some Kind.failure;
  event_id = r.new_id;
  started_at = r.epoch;
  retry_at = max r.epoch (s.last_failure_sent_at + seconds 1800);
  attempts = 0;
}

abbrev pub ended : EventState → EventState
ended s = record s {
  active = false;
  pending = if s.notified then some Kind.recovery else none;
  retry_at = 0;
  attempts = 0;
}

-- An alert that was delivered, and when.
abbrev pub Delivery : Type 0
Delivery = Kind × ℕ

abbrev is_failure : Kind → Bool
is_failure Kind.failure = true
is_failure Kind.recovery = false

abbrev pub delivered : Kind → (epoch : ℕ) → EventState → EventState
delivered k epoch s = record s {
  last_failure_sent_at = if is_failure k then epoch else s.last_failure_sent_at;
  notified = is_failure k;
  pending = none;
  last_sent_at = epoch;
  attempts = 0;
}

-- `(60, 120, 300)[min(attempts - 1, 2)]`.
abbrev delay : (attempts : ℕ) → ℕ
delay attempts =
    if leb attempts 1 then seconds 60 else if attempts == 2 then seconds 120 else seconds 300

abbrev pub retried : (epoch : ℕ) → EventState → EventState
retried epoch s = record s { attempts = s.attempts + 1; retry_at = epoch + delay (s.attempts + 1) }

-- The alert that is pending, if its time has come.
unfoldable pub send_pending : Reading → Option Kind → EventState → EventState × Option Delivery
send_pending r none s = (s, none)
send_pending r (some k) s =
    if leb s.retry_at r.epoch
    then (if r.sent then (delivered k r.epoch s, some (k, r.epoch)) else (retried r.epoch s, none))
    else (s, none)

-- `_transition`.
unfoldable pub transition :
    EventType → (active : Bool) → Reading → EventState → EventState × Option Delivery
transition event_type active r s =
    let s' =
      if active && not s.active
      then (if s.notified then again s else begun r s)
      else if not active && s.active
      then ended s
      else s in
    if not active && (s.active && not (recovery_allowed event_type r s))
    then (s, none)
    else send_pending r s'.pending s'

-- What `_tick_locked` reads and keeps: the fields of the hash `state`, and the events.
pub record Monitor : Type 0 where
  pub monitor_started_at : Option ℕ
  pub monitor_store_failures : ℕ
  pub events : EventType → EventState

pub record Health : Type 0 where
  pub consecutive_failures : ℕ
  pub last_success_at : ℕ
  pub heartbeat_at : ℕ
  pub api_store_failures : ℕ
  pub evictions : ℕ
  pub count : Option ℕ

abbrev is_below_five : Option ℕ → Bool
is_below_five none = false
is_below_five (some n) = ltb n 5

unfoldable pub condition : (epoch started_at store_errors : ℕ) → Health → EventType → Bool
condition epoch started_at store_errors h EventType.sync_failure = leb 3 h.consecutive_failures
condition epoch started_at store_errors h EventType.cache_low =
    ltb (started_at + seconds 180) epoch && is_below_five h.count
condition epoch started_at store_errors h EventType.cache_evictions = leb 3 h.evictions
condition epoch started_at store_errors h EventType.worker_stale =
    ltb (started_at + seconds 180) epoch
    && (h.heartbeat_at == 0 || ltb (h.heartbeat_at + seconds 180) epoch)
condition epoch started_at store_errors h EventType.cache_store_error =
    leb 3 (max store_errors h.api_store_failures)

abbrev first_start : (epoch : ℕ) → Option ℕ → ℕ
first_start epoch none = epoch
first_start epoch (some t) = t

abbrev store_errors : Option ℕ → ℕ → ℕ
store_errors none failures = failures + 1
store_errors (some n) failures = 0

-- `_tick_locked`: the ids of new events and the outcomes of sends are given by event type, and so
-- is what was delivered.
unfoldable pub tick_locked :
    (epoch : ℕ)
    → Health
    → (new_id : EventType → String) → (sent : EventType → Bool) → Monitor
    → Monitor × (EventType → Option Delivery)
tick_locked epoch h new_id sent m =
    let started_at = first_start epoch m.monitor_started_at in
    let errors = store_errors h.count m.monitor_store_failures in
    let go : EventType → EventState × Option Delivery = λ e.
      transition e (condition epoch started_at errors h e)
        (record {
          epoch = epoch;
          last_success = h.last_success_at;
          valid_count = h.count;
          new_id = new_id e;
          sent = sent e;
        })
        (m.events e) in
    (
      record {
        monitor_started_at = some started_at;
        monitor_store_failures = errors;
        events = λ e. (go e).0;
      },
      λ e. (go e).1,
    )
