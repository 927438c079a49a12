-- ===== src/Checker/Breaker/Defs.antt =====
-- The three Lua scripts and the methods that call them. A `Circuit` is the Redis hash under the
-- target's key, `none` a field that is not set.
use ip_proxy_pool.Base.{
  ℕ, ◌+◌, Bool, true, false, Option, none, some, String, str_eq, leb, if◌then◌else◌,
}
use ip_proxy_pool.Models.{seconds}

pub data CircuitState : Type 0 where
  closed open_state half_open : CircuitState

pub record Circuit : Type 0 where
  pub state : Option CircuitState
  pub failure_count : Option ℕ
  pub opened_at : Option ℕ
  pub half_open_owner : Option String

-- `RedisCircuitBreaker.__init__`: the threshold of failures, and the cooldown in seconds.
pub record Settings : Type 0 where
  pub failures : ℕ
  pub cooldown : ℕ

pub record Decision : Type 0 where
  pub allowed : Bool
  pub state : CircuitState

-- The key is not there yet.
abbrev pub fresh : Circuit
fresh = record { state = none; failure_count = none; opened_at = none; half_open_owner = none }

-- `redis.call('HGET', KEYS[1], 'state') or 'closed'`, and the like for the numbers.
abbrev pub state_of : Circuit → CircuitState
state_of c = elim c.state [ none ↦ closed | some s ↦ s ]

abbrev pub count_of : Circuit → ℕ
count_of c = elim c.failure_count [ none ↦ 0 | some n ↦ n ]

abbrev pub opened_of : Circuit → ℕ
opened_of c = elim c.opened_at [ none ↦ 0 | some t ↦ t ]

abbrev owns : Option String → String → Bool
owns none owner = false
owns (some o) owner = str_eq o owner

probe_in : CircuitState → Settings → (owner : String) → (now : ℕ) → Circuit → Circuit × Decision
probe_in closed cfg owner now c = (c, record { allowed = true; state = closed })
probe_in open_state cfg owner now c =
    if leb (opened_of c + seconds cfg.cooldown) now
    then (
      record c { state = some half_open; half_open_owner = some owner },
      record { allowed = true; state = half_open },
    )
    else (c, record { allowed = false; state = open_state })
probe_in half_open cfg owner now c =
    (c, record { allowed = owns c.half_open_owner owner; state = half_open })

-- `before_probe`, after its check that the owner is a non-empty text.
unfoldable pub before_probe : Settings → (owner : String) → (now : ℕ) → Circuit → Circuit × Decision
unfolding probe_in
before_probe cfg owner now c = probe_in (state_of c) cfg owner now c

trip : ℕ → ℕ → Circuit → Circuit
trip count now c = record c {
  state = some open_state;
  failure_count = some count;
  opened_at = some now;
}

fail_in : CircuitState → Settings → (now : ℕ) → Circuit → Circuit
unfolding trip
fail_in half_open cfg now c = record (trip (count_of c + 1) now c) { half_open_owner = none }
fail_in open_state cfg now c = record c { failure_count = some (count_of c + 1) }
fail_in closed cfg now c =
    if leb cfg.failures (count_of c + 1)
    then trip (count_of c + 1) now c
    else record c { state = some closed; failure_count = some (count_of c + 1) }

unfoldable pub record_failure : Settings → (now : ℕ) → Circuit → Circuit
unfolding fail_in
record_failure cfg now c = fail_in (state_of c) cfg now c

unfoldable pub record_success : Circuit → Circuit
record_success c = record {
  state = some closed;
  failure_count = some 0;
  opened_at = none;
  half_open_owner = none;
}
