-- ===== src/Checker/Worker/Round.antt =====
-- `run_once` of checker/worker.py: one round of a worker on a domain.
use ip_proxy_pool.Base.{
  ℕ, ◌+◌, Bool, true, false, Option, List, [], ◌∷◌, String, length, str_eq, if◌then◌else◌,
}
use ip_proxy_pool.Models.{
  Floats, ProxyRecord, ProbeResult, ProbeCategory, success, proxy_error, system_error, cancelled,
  seconds,
}
use ip_proxy_pool.Storage.Server.{Server, Pool, Result, ok, value_error, ◌>>=◌}
use ip_proxy_pool.Storage.Lease.{Lease, claim_due, release, reclaim_expired}
use ip_proxy_pool.Checker.Breaker.{Circuit, Settings, before_probe, record_failure, record_success}
use ip_proxy_pool.Checker.Worker.{WorkerRun, WorkerSettings, count_released, process_lease}

-- The circuits by target, of which one is changed.
abbrev pub set_circuit : String → Circuit → (String → Circuit) → String → Circuit
set_circuit t c circuits t' = if str_eq t t' then c else circuits t'

-- What the baseline of a target means for its circuit.
abbrev pub recorded : Settings → (now : ℕ) → ProbeCategory → Circuit → Circuit
recorded cfg now success c = record_success c
recorded cfg now cancelled c = c
recorded cfg now proxy_error c = record_failure cfg now c
recorded cfg now system_error c = record_failure cfg now c

abbrev pub is_success : ProbeCategory → Bool
is_success success = true
is_success cancelled = false
is_success proxy_error = false
is_success system_error = false

-- The loop over the targets: whether the round goes on, and the circuits.
unfoldable pub check_targets :
    Settings
    → (worker_id : String) → (now : ℕ) → (baseline : String → ProbeCategory) → List String
    → (String → Circuit)
    → Bool × (String → Circuit)
check_targets cfg worker_id now baseline [] circuits = (true, circuits)
check_targets cfg worker_id now baseline (t ∷ targets) circuits =
    let (c, decision) = before_probe cfg worker_id now (circuits t) in
    let circuits' = set_circuit t (recorded cfg now (baseline t) c) circuits in
    let rest = check_targets cfg worker_id now baseline targets circuits' in
    if decision.allowed
    then (if is_success (baseline t) then rest else (false, circuits'))
    else (false, set_circuit t c circuits)

abbrev pub new_run : (claimed : ℕ) → WorkerRun
new_run claimed = record {
  claimed = claimed;
  completed = 0;
  released = 0;
  lost_leases = 0;
  deleted = 0;
}

module _ (fl : Floats) (sv : Server fl) (max_latency : fl.Float) (settings : WorkerSettings) where
  -- How a task goes: what others do to the pool before its last write, and the record and the
  -- result of the probe, or that it is cancelled.
  pub data Course : Type 0 where
    finishes : (Pool fl sv → Pool fl sv) → Option (ProxyRecord fl) → ProbeResult fl → Course
    is_cancelled : (Pool fl sv → Pool fl sv) → Course

  -- `process`.
  abbrev pub process :
      (now : ℕ) → Lease → Course → WorkerRun → Pool fl sv → Result (WorkerRun × Pool fl sv)
  process now lease (finishes others found result) run p =
      process_lease fl sv max_latency settings lease found result now run (others p)
  process now lease (is_cancelled others) run p =
      let (done, q) = release fl sv lease (now + seconds 5) (others p) in
      ok (count_released done run, q)

  -- The task group, by the order in which the tasks end.
  unfoldable pub process_all :
      (now : ℕ) → List (Lease × Course) → WorkerRun → Pool fl sv → Result (WorkerRun × Pool fl sv)
  process_all now [] run p = ok (run, p)
  process_all now ((lease, course) ∷ tasks) run p = do
    (run', p') ← process now lease course run p
    process_all now tasks run' p'

  -- What `run_once` is given: the settings, the baselines of the targets, the order in which the
  -- tasks of the claimed leases end with the course of each, and what others do to the pool
  -- before the claim.
  pub record Round : Type 0 where
    pub breaker : Settings
    pub worker_id : String
    pub token : String
    pub batch_size : ℕ
    pub lease_seconds : ℕ
    pub baseline : String → ProbeCategory
    pub schedule : List Lease → List (Lease × Course)
    pub others : Pool fl sv → Pool fl sv

  -- The claim and the tasks.
  abbrev pub claim_and_process :
      Round → (domain : String) → (now : ℕ) → Pool fl sv → Result (WorkerRun × Pool fl sv)
  claim_and_process r domain now p = do
    (leases, q) ←
        claim_due fl sv domain r.worker_id r.token r.batch_size r.lease_seconds now (r.others p)
    process_all now (r.schedule leases) (new_run (length leases)) q

  abbrev with_circuits :
      (String → Circuit) → WorkerRun × Pool fl sv → WorkerRun × ((String → Circuit) × Pool fl sv)
  with_circuits circuits (run, p) = (run, (circuits, p))

  abbrev pub go_on :
      Round
      → (domain : String) → (now : ℕ) → Pool fl sv
      → Bool × (String → Circuit)
      → Result (WorkerRun × ((String → Circuit) × Pool fl sv))
  go_on r domain now p (false, circuits) = ok (new_run 0, (circuits, p))
  go_on r domain now p (true, circuits) =
      claim_and_process r domain now p >>= λ outcome. ok (with_circuits circuits outcome)

  -- `run_once`, for the targets that are configured for the domain, the primary one first.
  unfoldable pub run_once :
      Round
      → (domain : String) → (targets : List String) → (now : ℕ) → (String → Circuit)
      → Pool fl sv
      → Result (WorkerRun × ((String → Circuit) × Pool fl sv))
  run_once r domain [] now circuits p = value_error
  run_once r domain (t ∷ targets) now circuits p =
      reclaim_expired fl sv now 1000 p >>= λ (members, q).
      go_on r domain now q
        (check_targets r.breaker r.worker_id now r.baseline (t ∷ targets) circuits)
