-- ===== src/Tests/Worker.antt =====
-- The worker's theorems at concrete inputs.
use ip_proxy_pool.Base.{
  ℕ, suc, ap, ◌⊎◌, List, [], ◌∷◌, All, length, ◌+◌, ◌≡◌, refl, inr, true, none, some,
}
use ip_proxy_pool.Models.{ProbeResult, success, seconds}
use ip_proxy_pool.Storage.Server.{Pool, ok}
use ip_proxy_pool.Storage.Index.{latency_index_score, priority_due_score}
use ip_proxy_pool.Storage.Lease.{
  Lease, release, reclaim_expired, reclaim_each, claim_due, claim_priority_due, claim_each,
  priority_share, lease_owner,
}
use ip_proxy_pool.Checker.Breaker.{fresh, before_probe, record_success}
use ip_proxy_pool.Checker.Worker.Round.{
  Round, Course, is_cancelled, is_success, set_circuit, check_targets, process_all, run_once,
}
use ip_proxy_pool.Checker.Worker.Counts.{accounted, run_once_accounts}
use ip_proxy_pool.Storage.Sound.{IsSound}
use ip_proxy_pool.Checker.Worker.{WorkerRun, WorkerSettings, give_back, process_lease, lose}
use ip_proxy_pool.Checker.Worker.Settled.{IsSettled, held_lease-IsSettled, lost_lease_is_counted}
use ip_proxy_pool.Checker.Worker.Sound.{process_lease-IsSound}
use ip_proxy_pool.Tests.Memory.{whole_ms, server}
use ip_proxy_pool.Tests.Records.{fast, empty, busy, lease}

abbrev settings : WorkerSettings
settings = record {
  drop_after_failures = 5;
  is_allowed = λ e. true;
  jitter = λ a b. a;
  release_delay = 7;
}

abbrev passed : ProbeResult whole_ms
passed = record {
  category = success;
  latency_ms = some 90;
  status_code = some 200;
  error_type = none;
  error_message = none;
}

abbrev run : WorkerRun
run = record { claimed = 1; completed = 0; released = 0; lost_leases = 0; deleted = 0 }

held_lease-IsSettled_example :
    (run' : WorkerRun) × (q : Pool whole_ms server) × (process_lease whole_ms server 1000 settings
        lease
        (some fast)
        passed
        9
        run
        busy
      ≡ ok (run', q))
    × IsSettled whole_ms server 1000 settings lease run run' q
held_lease-IsSettled_example =
    held_lease-IsSettled whole_ms server 1000 settings lease (some fast) passed 9 run busy
      (refl, refl) refl

lost_lease_is_counted_example :
    process_lease whole_ms server 1000 settings lease (some fast) passed 9 run empty
    ≡ ok (lose run, empty)
lost_lease_is_counted_example =
    lost_lease_is_counted whole_ms server 1000 settings lease (some fast) passed 9 run empty
      (refl, refl) refl

-- The record is gone when the worker comes to it: the lease is given back, due 7 seconds later.
abbrev after : Pool whole_ms server
after = (release whole_ms server lease (9 + seconds 7) busy).1

given_back :
    process_lease whole_ms server 1000 settings lease none passed 9 run busy
    ≡ ok (record run { released = 1 }, after)
unfolding process_lease give_back release
given_back = refl

busy-IsSound : IsSound whole_ms server 1000 "8.8.8.8:80" busy
unfolding latency_index_score priority_due_score
busy-IsSound = record {
  readable = refl;
  paired = refl;
  kept = inr (inr refl);
  quality = refl;
  latency = refl;
  priority = refl;
}

process_lease-IsSound_example : IsSound whole_ms server 1000 "8.8.8.8:80" after
process_lease-IsSound_example =
    process_lease-IsSound whole_ms server 1000 settings lease none passed 9 run
      (record run { released = 1 }) busy after "8.8.8.8:80" (λ r e. tt) given_back busy-IsSound

abbrev due_at_five : Pool whole_ms server
due_at_five = record busy { due = ("8.8.8.8:80", 5) ∷ []; leased = []; lease_owners = [] }

abbrev returned : Pool whole_ms server
returned = record busy {
  due = ("8.8.8.8:80", 5_000_007) ∷ [];
  leased = [];
  lease_owners = [];
  priority_due = ("8.8.8.8:80", 5_000_007) ∷ [];
}

-- A round in which the one claimed task is cancelled.
abbrev cancel_all : List Lease → List (Lease × Course whole_ms server 1000 settings)
cancel_all [] = []
cancel_all (l ∷ ls) = (l, is_cancelled (λ p. p)) ∷ cancel_all ls

length-cancel_all : (ls : List Lease) → length (cancel_all ls) ≡ length ls
length-cancel_all [] = refl
length-cancel_all (l ∷ ls) = ap suc (length-cancel_all ls)

abbrev round : Round whole_ms server 1000 settings
round = record {
  breaker = record { failures = 3; cooldown = 30 };
  worker_id = "checker";
  token = "t";
  batch_size = 2;
  lease_seconds = 30;
  baseline = λ t. success;
  schedule = cancel_all;
  others = λ p. p;
}

abbrev one_released : WorkerRun
one_released = record { claimed = 1; completed = 0; released = 1; lost_leases = 0; deleted = 0 }

run_once_accounts_example :
    (accounted one_released ≡ 1)
    × ((◌≡◌ {A = ℕ} 1 0) ⊎ All (λ t. is_success (round.baseline t) ≡ true) ("target" ∷ []))
unfolding run_once reclaim_expired reclaim_each check_targets before_probe record_success claim_due
    claim_priority_due claim_each priority_share lease_owner process_all release
run_once_accounts_example =
    run_once_accounts whole_ms server 1000 settings round "example.com" ("target" ∷ []) 7
      (λ t. fresh) (set_circuit "target" (record_success fresh) (λ t. fresh)) due_at_five returned
      one_released length-cancel_all refl
