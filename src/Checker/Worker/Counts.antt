-- ===== src/Checker/Worker/Counts.antt =====
-- What the counters of a worker's round say.
use ip_proxy_pool.Base.{
  ℕ, ◌+◌, ◌≡◌, refl, ap, subst, ◌∙◌, ◌⊎◌, inl, inr, Bool, true, false, Option, none, some, List, [],
  ◌∷◌, String, length, leb, All, arith, Bool-cases,
}
use ip_proxy_pool.Models.{Floats, seconds, ProxyRecord, ProbeResult, ProbeCategory}
use ip_proxy_pool.Storage.Server.{Server, Pool, Result, Result-cases, ok, value_error}
use ip_proxy_pool.Storage.Lease.{
  Lease, claim_due, complete, release, delete_leased, reclaim_expired,
}
use ip_proxy_pool.Checker.Scoring.{apply_probe_result}
use ip_proxy_pool.Checker.Breaker.{Circuit, Settings, before_probe}
use ip_proxy_pool.Checker.Worker.{
  WorkerRun, WorkerSettings, count_released, count_deleted, count_completed, is_no_verdict,
  give_back, drop, updated, settle, process_lease,
}
use ip_proxy_pool.Checker.Worker.Round.{
  Round, Course, finishes, is_cancelled, process, process_all, new_run, is_success, recorded,
  set_circuit, check_targets, go_on, run_once,
}

-- How many leases a run has accounted for.
abbrev pub accounted : WorkerRun → ℕ
accounted run = run.completed + run.released + run.deleted + run.lost_leases

-- One more lease is accounted for, and as many are claimed as before.
abbrev CountsOne : WorkerRun → WorkerRun → Type 0
CountsOne run run' = (accounted run' ≡ accounted run + 1) × (run'.claimed ≡ run.claimed)

released-CountsOne : (done : Bool) (run : WorkerRun) → CountsOne run (count_released done run)
released-CountsOne true run = (omega arith, refl)
released-CountsOne false run = (omega arith, refl)

deleted-CountsOne : (done : Bool) (run : WorkerRun) → CountsOne run (count_deleted done run)
deleted-CountsOne true run = (omega arith, refl)
deleted-CountsOne false run = (omega arith, refl)

completed-CountsOne : (done : Bool) (run : WorkerRun) → CountsOne run (count_completed done run)
completed-CountsOne true run = (omega arith, refl)
completed-CountsOne false run = (omega arith, refl)

abbrev value_or {ℓ} : {A : Type ℓ} → A → Result A → A
value_or a value_error = a
value_or a (ok b) = b

ok_injective {ℓ} : {A : Type ℓ} (a b : A) → ok a ≡ ok b → a ≡ b
ok_injective a b e = ap (value_or a) e

module _ (fl : Floats) (sv : Server fl) (max_latency : fl.Float) (settings : WorkerSettings) where
  abbrev EndsWithOne : WorkerRun → Result (WorkerRun × Pool fl sv) → Type 0
  EndsWithOne run o = (run' : WorkerRun) (q : Pool fl sv) → o ≡ ok (run', q) → CountsOne run run'

  give_back-EndsWithOne :
      (lease : Lease) (now : ℕ) (run : WorkerRun) (p : Pool fl sv)
      → EndsWithOne run (ok (give_back fl sv max_latency settings lease now run p))
  unfolding give_back
  give_back-EndsWithOne lease now run p run' q e =
      let done = (release fl sv lease (now + seconds settings.release_delay) p).0 in
      subst (λ r. CountsOne run r.0) (ok_injective _ (run', q) e) (released-CountsOne done run)

  drop-EndsWithOne :
      (lease : Lease) (run : WorkerRun) (p : Pool fl sv)
      → EndsWithOne run (ok (drop fl sv max_latency settings lease run p))
  unfolding drop
  drop-EndsWithOne lease run p run' q e =
      let done = (delete_leased fl sv lease p).0 in
      subst (λ r. CountsOne run r.0) (ok_injective _ (run', q) e) (deleted-CountsOne done run)

  settle-EndsWithOne :
      (lease : Lease) (r : ProxyRecord fl) (result : ProbeResult fl) (now : ℕ) (run : WorkerRun)
      (p : Pool fl sv)
      → EndsWithOne run (settle fl sv max_latency settings lease r result now run p)
  unfolding settle
  settle-EndsWithOne lease r result now run p =
      let u = updated fl sv max_latency settings r result now in
      elim (Bool-cases (
        leb settings.drop_after_failures
          (apply_probe_result fl r result now).consecutive_failures)) [
            | inl many ↦ rw many (drop-EndsWithOne lease run p)
            | inr few ↦ elim (Result-cases (complete fl sv max_latency lease u p)) [
              | inl bad ↦ rw (few, bad) (λ run' q e. absurd (ground (arith, e)))
              | inr ((done, p'), good) ↦
                  rw (few, good)
                    (λ run' q e.
                      subst (λ r. CountsOne run r.0)
                        (ok_injective (count_completed done run, p') (run', q) e)
                        (completed-CountsOne done run))
            ]
          ]

  process_lease-EndsWithOne :
      (lease : Lease) (found : Option (ProxyRecord fl)) (result : ProbeResult fl) (now : ℕ)
      (run : WorkerRun) (p : Pool fl sv)
      → EndsWithOne run (process_lease fl sv max_latency settings lease found result now run p)
  unfolding process_lease
  process_lease-EndsWithOne lease none result now run p = give_back-EndsWithOne lease now run p
  process_lease-EndsWithOne lease (some r) result now run p =
      elim (Bool-cases (settings.is_allowed r.endpoint)) [
        | inr refused ↦ rw refused (drop-EndsWithOne lease run p)
        | inl allowed ↦ elim (Bool-cases (is_no_verdict result.category)) [
          | inl silent ↦ rw (allowed, silent) (give_back-EndsWithOne lease now run p)
          | inr clear ↦ rw (allowed, clear) (settle-EndsWithOne lease r result now run p)
        ]
      ]

  process-EndsWithOne :
      (now : ℕ) (lease : Lease) (course : Course fl sv max_latency settings) (run : WorkerRun)
      (p : Pool fl sv)
      → EndsWithOne run (process fl sv max_latency settings now lease course run p)
  process-EndsWithOne now lease (finishes others found result) run p run' q e =
      process_lease-EndsWithOne lease found result now run (others p) run' q e
  process-EndsWithOne now lease (is_cancelled others) run p run' q e =
      let done = (release fl sv lease (now + seconds 5) (others p)).0 in
      subst (λ r. CountsOne run r.0) (ok_injective _ (run', q) e) (released-CountsOne done run)

  process_all-accounts :
      (now : ℕ) (tasks : List (Lease × Course fl sv max_latency settings)) (run : WorkerRun)
      (p : Pool fl sv) (run' : WorkerRun) (q : Pool fl sv)
      → process_all fl sv max_latency settings now tasks run p ≡ ok (run', q)
      → (accounted run' ≡ accounted run + length tasks) × (run'.claimed ≡ run.claimed)
  unfolding process_all
  process_all-accounts now [] run p run' q e =
      subst (λ r. (accounted r.0 ≡ accounted run + 0) × (r.0.claimed ≡ run.claimed))
        (ok_injective (run, p) (run', q) e) (omega arith, refl)
  process_all-accounts now ((lease, course) ∷ tasks) run p run' q e =
      elim (Result-cases (process fl sv max_latency settings now lease course run p)) [
        | inl bad ↦
            let e' : ◌≡◌ {A = Result (WorkerRun × Pool fl sv)} value_error (ok (run', q)) =
              rw (process_all, bad) at e in
            absurd (ground (arith, e'))
        | inr ((run₁, p₁), good) ↦
            let one = process-EndsWithOne now lease course run p run₁ p₁ good in
            let rest =
              process_all-accounts now tasks run₁ p₁ run' q (rw (process_all, good) at e) in
            (omega (arith, one.0, rest.0), rest.1 ∙ one.1)
      ]

  -- The baselines of the targets that were checked before the round went on.
  check_targets-success :
      (cfg : Settings) (worker_id : String) (now : ℕ) (baseline : String → ProbeCategory)
      (targets : List String) (circuits : String → Circuit)
      → (check_targets cfg worker_id now baseline targets circuits).0 ≡ true
      → All (λ t. is_success (baseline t) ≡ true) targets
  unfolding check_targets
  check_targets-success cfg worker_id now baseline [] circuits e = tt
  check_targets-success cfg worker_id now baseline (t ∷ targets) circuits e =
      let (c, decision) = before_probe cfg worker_id now (circuits t) in
      let circuits' = set_circuit t (recorded cfg now (baseline t) c) circuits in
      elim (Bool-cases decision.allowed) [
        | inr refused ↦ absurd (ground (arith, refused, e))
        | inl allowed ↦ elim (Bool-cases (is_success (baseline t))) [
          | inr failed ↦ absurd (ground (arith, allowed, failed, e))
          | inl good ↦ (
            good,
            check_targets-success cfg worker_id now baseline targets circuits'
                (ground (arith, allowed, good, e)),
          )
        ]
      ]

  go_on-accounts :
      (r : Round fl sv max_latency settings) (domain : String) (targets : List String) (now : ℕ)
      (circuits' : String → Circuit) (p p' : Pool fl sv) (run : WorkerRun) (goes : Bool)
      (circuits : String → Circuit)
      → ((leases : List Lease) → length (r.schedule leases) ≡ length leases)
      → (goes ≡ true → All (λ t. is_success (r.baseline t) ≡ true) targets)
      → go_on fl sv max_latency settings r domain now p (goes, circuits) ≡ ok (run, (circuits', p'))
      → (accounted run ≡ run.claimed)
        × ((run.claimed ≡ 0) ⊎ All (λ t. is_success (r.baseline t) ≡ true) targets)
  go_on-accounts r domain targets now circuits' p p' run false circuits each all e =
      let same : new_run 0 ≡ run =
        ap (λ x. x.0) (ok_injective (new_run 0, (circuits, p)) (run, (circuits', p')) e) in
      rw (← same) (refl, inl refl)
  go_on-accounts r domain targets now circuits' p p' run true circuits each all e =
      elim (Result-cases (
        claim_due fl sv domain r.worker_id r.token r.batch_size r.lease_seconds now (r.others p))) [
          | inl bad ↦
              let e' : ◌≡◌ {A = Result (WorkerRun × ((String → Circuit) × Pool fl sv))} value_error
                  (ok (run, (circuits', p'))) =
                rw bad at e in
              absurd (ground (arith, e'))
          | inr ((leases, q), claimed) ↦
              elim (Result-cases (
                process_all fl sv max_latency settings now (r.schedule leases)
                  (new_run (length leases)) q)) [
                    | inl bad ↦
                        let e' : ◌≡◌ {A = Result (WorkerRun × ((String → Circuit) × Pool fl sv))}
                            value_error (ok (run, (circuits', p'))) =
                          rw (claimed, bad) at e in
                        absurd (ground (arith, e'))
                    | inr ((run₁, q₁), done) ↦
                        let counts =
                          process_all-accounts now (r.schedule leases) (new_run (length leases)) q
                            run₁ q₁ done in
                        let same : run₁ ≡ run =
                          ap (λ x. x.0)
                            (ok_injective (run₁, (circuits, q₁)) (run, (circuits', p'))
                              (rw (claimed, done) at e)) in
                        rw (← same) (omega (arith, counts.0, counts.1, each leases), inr (all refl))
                  ]
        ]

  -- A round that ends, in which each claimed lease has one task, whatever others do to the pool
  -- meanwhile, whatever the probes find, and whichever tasks are cancelled, accounts for every
  -- lease that it claimed: as completed, released, deleted or lost, and for each exactly once. And
  -- it claims none unless the baseline of every target succeeded.
  pub run_once_accounts :
      (r : Round fl sv max_latency settings) (domain : String) (targets : List String) (now : ℕ)
      (circuits circuits' : String → Circuit) (p p' : Pool fl sv) (run : WorkerRun)
      → ((leases : List Lease) → length (r.schedule leases) ≡ length leases)
      → run_once fl sv max_latency settings r domain targets now circuits p
        ≡ ok (run, (circuits', p'))
      → (accounted run ≡ run.claimed)
        × ((run.claimed ≡ 0) ⊎ All (λ t. is_success (r.baseline t) ≡ true) targets)
  unfolding run_once
  run_once_accounts r domain [] now circuits circuits' p p' run each e = absurd (ground (arith, e))
  run_once_accounts r domain (t ∷ targets) now circuits circuits' p p' run each e =
      elim (Result-cases (reclaim_expired fl sv now 1000 p)) [
        | inl bad ↦
            let e' : ◌≡◌ {A = Result (WorkerRun × ((String → Circuit) × Pool fl sv))} value_error
                (ok (run, (circuits', p'))) =
              rw (run_once, bad) at e in
            absurd (ground (arith, e'))
        | inr ((members, q), good) ↦
            let checked =
              check_targets r.breaker r.worker_id now r.baseline (t ∷ targets) circuits in
            go_on-accounts r domain (t ∷ targets) now circuits' q p' run checked.0 checked.1 each
              (check_targets-success r.breaker r.worker_id now r.baseline (t ∷ targets) circuits)
              (rw (run_once, good) at e)
      ]
