-- ===== src/Tests/Checker.antt =====
-- The checker's theorems at concrete inputs.
use ip_proxy_pool.Base.{
  ℕ, ◌+◌, ◌≤◌, ◌≡◌, refl, ◌↔◌, ◌⊎◌, inl, none, some, List, [], ◌∷◌, String, arith,
}
use ip_proxy_pool.Models.{
  ProxyRecord, ProbeResult, ProbeCategory, candidate, quarantined, proxy_error, system_error,
  seconds,
}
use ip_proxy_pool.Checker.Scoring.{apply_probe_result}
use ip_proxy_pool.Checker.Scoring.Health.{
  IsHealthy, apply_all, apply_all-IsHealthy, quarantined_iff, quarantined_after_failures,
}
use ip_proxy_pool.Checker.Scheduling.{next_check_at, next_check_at_bounds}
use ip_proxy_pool.Checker.Breaker.{open_state, half_open, Circuit, Settings, before_probe}
use ip_proxy_pool.Checker.Breaker.HalfOpen.{one_half_open_owner}
use ip_proxy_pool.Tests.Memory.{whole_ms}

abbrev fresh_record : ProxyRecord whole_ms
fresh_record = record {
  endpoint = "8.8.8.8:80";
  domain = "example.com";
  score = 50;
  state = candidate;
  source_names = "s" ∷ [];
  first_seen_at = 0;
  last_seen_at = 0;
  last_checked_at = none;
  next_check_at = 0;
  consecutive_successes = 0;
  consecutive_failures = 0;
  success_count = 0;
  failure_count = 0;
  latency_ewma_ms = none;
  last_status_code = none;
  last_error_type = none;
  last_error_message = none;
}

abbrev result_of : ProbeCategory → ProbeResult whole_ms
result_of c = record {
  category = c;
  latency_ms = some 120;
  status_code = some 200;
  error_type = none;
  error_message = none;
}

abbrev once_confirmed : ProxyRecord whole_ms
once_confirmed = record fresh_record { consecutive_successes = 1; score = 75 }

abbrev three_errors : List (ℕ × ProbeResult whole_ms)
three_errors =
    (1, result_of proxy_error)
    ∷ (2, result_of proxy_error)
    ∷ (3, result_of system_error)
    ∷ (4, result_of proxy_error)
    ∷ []

fresh_record-IsHealthy : IsHealthy whole_ms fresh_record
fresh_record-IsHealthy = record {
  bounded = omega arith;
  streaks = inl refl;
  fit = λ e. omega arith;
}

apply_all-IsHealthy_example : IsHealthy whole_ms (apply_all whole_ms fresh_record three_errors)
apply_all-IsHealthy_example =
    apply_all-IsHealthy whole_ms three_errors fresh_record fresh_record-IsHealthy

quarantined_iff_example :
    let r' = apply_probe_result whole_ms once_confirmed (result_of proxy_error) 9 in
    (r'.state ≡ quarantined)
    ↔ ((proxy_error ≡ proxy_error) × ((3 ≤ r'.consecutive_failures) ⊎ (r'.score ≡ 0)))
quarantined_iff_example =
    quarantined_iff whole_ms once_confirmed (result_of proxy_error) 9 (λ e. cc)

quarantined_after_failures_example :
    (apply_all whole_ms fresh_record three_errors).state ≡ quarantined
quarantined_after_failures_example =
    quarantined_after_failures whole_ms three_errors fresh_record (omega arith)
      ((λ e. cc), ((λ e. cc), ((λ e. cc), ((λ e. cc), tt)))) (omega arith)

next_check_at_bounds_example :
    (7 + seconds 30 ≤ next_check_at whole_ms (λ a b. a) fresh_record 7)
    × (next_check_at whole_ms (λ a b. a) fresh_record 7 ≤ 7 + seconds 86400)
next_check_at_bounds_example =
    next_check_at_bounds whole_ms (λ a b. a) fresh_record 7 (λ a b h. (omega arith, h))

abbrev quarantined_record : ℕ → ProxyRecord whole_ms
quarantined_record n = record fresh_record { state = quarantined; consecutive_failures = n }

abbrev settings : Settings
settings = record { failures = 3; cooldown = 60 }

abbrev tripped : Circuit
tripped = record {
  state = some open_state;
  failure_count = some 3;
  opened_at = some 5;
  half_open_owner = none;
}

abbrev held : Circuit
held = record tripped { state = some half_open; half_open_owner = some "a" }

abbrev late_calls : List (String × ℕ)
late_calls = ("a", 70_000_000) ∷ ("b", 70_000_001) ∷ ("a", 70_000_002) ∷ []

one_half_open_owner_example : ◌≡◌ {A = String} "a" "a"
unfolding before_probe
one_half_open_owner_example = one_half_open_owner settings "a" "a" late_calls tripped refl refl refl
