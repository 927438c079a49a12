-- ===== src/Ownership/Rounds.antt =====
-- What a decision that the lead was nobody's stands on.
use ip_proxy_pool.Base.{
  ℕ, ◌≡◌, ◌≢◌, if◌then◌else◌, refl, subst, ◌⊎◌, inl, inr, Bool, true, false, Option, none, some,
  List, [], ◌∷◌, String, arith, elem, Bool-cases, str_eq, eq_iff,
}
use ip_proxy_pool.Ownership.Defs.{
  Round, first, second, CheckResult, found, absent, error, Outcome, Status, pending, internal,
  external, unconfirmed, CaseServer, Case, Reply, code, error_reply, of_round, claim_job,
  close_round, write_result, reap, confirm_success, all_absent, remove_jobs, is_pending, is_current,
  is_absent, marked, resolve, is_past,
}
use ip_proxy_pool.Ownership.Status.{
  Step, claims, submits, reaps, confirms, Reach, here, next, submit_result-cases, pending_status,
}
use ip_proxy_pool.Ownership.Frames.{claim_job-results, Reach-Keeps}

module _ (sv : CaseServer) where
  open sv use {outcomes, leases, jobs}

  -- Nobody has a job of the second round, or holds one.
  abbrev Unopened : Case sv → Type 0
  Unopened c =
      (m : String)
      → (jobs.zscore m c.due_jobs.in_second ≡ none) × (leases.hget m c.job_leases.in_second ≡ none)

  abbrev AbsentIn : Round → Case sv → Type 0
  AbsentIn round c = all_absent sv c.members (of_round round c.results) ≡ true

  record IsFair (c : Case sv) : Type 0 where
    gate : AbsentIn first c ⊎ Unopened c
    decided : c.status ≡ some external → AbsentIn first c × AbsentIn second c

  all_absent-hset :
      (m : String) (o : Outcome) (h : outcomes.Hash) (ms : List String)
      → outcomes.hget m h ≡ none
      → all_absent sv ms h ≡ true
      → all_absent sv ms (outcomes.hset m o h) ≡ true
  unfolding all_absent
  all_absent-hset m o h [] fresh e = refl
  all_absent-hset m o h (k ∷ ks) fresh e =
      ground
        (arith, fresh, e, all_absent-hset m o h ks fresh, outcomes.hget-hset k m o h, eq_iff m k)

  remove_jobs-none :
      (m : String) (ms : List String) (z : jobs.ZSet)
      → jobs.zscore m z ≡ none
      → jobs.zscore m (remove_jobs sv ms z) ≡ none
  unfolding remove_jobs
  remove_jobs-none m [] z e = e
  remove_jobs-none m (k ∷ ks) z e =
      remove_jobs-none m ks (jobs.zrem k z) (ground (arith, e, jobs.zscore-zrem m k z))

  claim_job-second :
      (now : ℕ) (member token : String) (c : Case sv)
      → ((claim_job sv now member token first c).1.due_jobs.in_second ≡ c.due_jobs.in_second)
        × ((claim_job sv now member token first c).1.job_leases.in_second ≡ c.job_leases.in_second)
  unfolding claim_job
  claim_job-second now member token c = (ground arith, ground arith)

  claim_job-IsFair :
      (now due : ℕ) (member token : String) (round : Round) (c : Case sv)
      → jobs.zscore member (of_round round c.due_jobs) ≡ some due
      → IsFair c
      → IsFair (claim_job sv now member token round c).1
  claim_job-IsFair now due member token first c listed f =
      let (kept, same, status) = claim_job-results sv now member token first c in
      let (jobs_kept, leases_kept) = claim_job-second now member token c in
      record {
        gate = rw (kept, same, jobs_kept, leases_kept) f.gate;
        decided = rw (kept, same, status) f.decided;
      }
  claim_job-IsFair now due member token second c listed f =
      let (kept, same, status) = claim_job-results sv now member token second c in
      record {
        gate = elim f.gate [
          | inl ready ↦ inl (rw (kept, same) ready)
          | inr unopened ↦ absurd (ground (arith, listed, (unopened member).0))
        ];
        decided = rw (kept, same, status) f.decided;
      }

  Unopened-remove_jobs :
      (c : Case sv)
      → Unopened c
      → (m : String)
      → (jobs.zscore m (remove_jobs sv c.members c.due_jobs.in_second) ≡ none)
        × (leases.hget m c.job_leases.in_second ≡ none)
  Unopened-remove_jobs c u m = (remove_jobs-none m c.members _ (u m).0, (u m).1)

  resolve-IsFair :
      (s : Status) (c : Case sv) → some s ≢ some external → IsFair c → IsFair (resolve sv s c)
  resolve-IsFair s c other f = record {
    gate = elim f.gate [
      | inl ready ↦ inl ready
      | inr unopened ↦ inr (Unopened-remove_jobs c unopened)
    ];
    decided = λ h. absurd (other h);
  }

  if-IsFair :
      (b : Bool) (c d : Case sv) → (b ≡ true → IsFair c) → IsFair d → IsFair (if b then c else d)
  if-IsFair true c d f g = f refl
  if-IsFair false c d f g = g

  reap-IsFair : (now : ℕ) (c : Case sv) → IsFair c → IsFair (reap sv now c)
  unfolding reap
  reap-IsFair now c f =
      let lapsed : Case sv = record c { deadline = none } in
      let still : IsFair lapsed = record { gate = f.gate; decided = f.decided } in
      if-IsFair (is_past sv now c.deadline) _ c
        (λ _.
          if-IsFair (is_pending c.status) (resolve sv unconfirmed c) lapsed
            (λ _. resolve-IsFair unconfirmed c (λ h. cc) f) still)
        f

  confirm_success-IsFair :
      (entry received : ℕ) (c : Case sv) → IsFair c → IsFair (confirm_success sv entry received c)
  unfolding confirm_success
  confirm_success-IsFair entry received c f =
      if-IsFair _ (resolve sv internal c) c (λ _. resolve-IsFair internal c (λ h. cc) f) f

  abbrev ReplyIsFair : Reply sv → Type 0
  ReplyIsFair error_reply = Unit
  ReplyIsFair (code n d) = IsFair d

  -- A job lease of the second round is there only when the first one is done.
  first_is_done :
      (now : ℕ) (member token : String) (c : Case sv)
      → is_current now token (leases.hget member c.job_leases.in_second) ≡ true
      → IsFair c
      → AbsentIn first c
  first_is_done now member token c held f = elim f.gate [
    | inl ready ↦ ready
    | inr unopened ↦ absurd (ground (arith, held, (unopened member).1))
  ]

  -- A result of the first round does not undo that all are absent in it, since it is for a member
  -- that had none.
  write_result-IsFair :
      (now : ℕ) (member result_id token : String) (round : Round) (result : CheckResult)
      (c : Case sv)
      → c.status ≡ some pending
      → outcomes.hget member (of_round round c.results) ≡ none
      → is_current now token (leases.hget member (of_round round c.job_leases)) ≡ true
      → IsFair c
      → ReplyIsFair (
          write_result sv now member result_id round result
            (marked sv member result_id round result c))
  unfolding write_result close_round
  write_result-IsFair now member result_id token first error c open_ fresh held f = record {
    gate = f.gate;
    decided = f.decided;
  }
  write_result-IsFair now member result_id token first found c open_ fresh held f = record {
    gate = elim f.gate [
      | inl ready ↦ inl (all_absent-hset member _ _ c.members fresh ready)
      | inr unopened ↦ inr (Unopened-remove_jobs c unopened)
    ];
    decided = λ h. cc;
  }
  write_result-IsFair now member result_id token first absent c open_ fresh held f =
      if-IsFair _ _ _ (λ all. record { gate = inl all; decided = λ h. cc })
        (record {
          gate = elim f.gate [
            | inl ready ↦ inl (all_absent-hset member _ _ c.members fresh ready)
            | inr unopened ↦ inr unopened
          ];
          decided = λ h. cc;
        })
  write_result-IsFair now member result_id token second error c open_ fresh held f = record {
    gate = inl (first_is_done now member token c held f);
    decided = λ h. cc;
  }
  write_result-IsFair now member result_id token second found c open_ fresh held f = record {
    gate = inl (first_is_done now member token c held f);
    decided = λ h. cc;
  }
  write_result-IsFair now member result_id token second absent c open_ fresh held f =
      let done = first_is_done now member token c held f in
      if-IsFair _ _ _ (λ all. record { gate = inl done; decided = λ _. (done, all) })
        (record { gate = inl done; decided = λ h. cc })

  Step-IsFair : (c d : Case sv) → Step sv c d → IsFair c → IsFair d
  Step-IsFair c d (claims now due member token round listed at) f =
      claim_job-IsFair now due member token round c listed f
  Step-IsFair c d (submits now n member round result result_id token e) f =
      elim (submit_result-cases sv now n member round result result_id token c d e) [
        | inl (same, _) ↦ rw same f
        | inr (open_, _, fresh, held, written) ↦ subst ReplyIsFair written (
            write_result-IsFair now member result_id token round result c
              (pending_status sv c.status open_) fresh held f)
      ]
  Step-IsFair c d (reaps now) f = reap-IsFair now c f
  Step-IsFair c d (confirms entry received) f = confirm_success-IsFair entry received c f

  Reach-IsFair : (c d : Case sv) → Reach sv c d → IsFair c → IsFair d
  Reach-IsFair c _ here f = f
  Reach-IsFair c e (next {d} r s) f = Step-IsFair d e s (Reach-IsFair c d r f)

  abbrev pub IsAbsent : String → outcomes.Hash → Type 0
  IsAbsent m h = (o : Outcome) × (outcomes.hget m h ≡ some o) × (o.result ≡ absent)

  result_is_absent :
      (r : CheckResult)
      → is_absent (some (record { result_id = ""; result = r })) ≡ true
      → r ≡ absent
  result_is_absent found e = cc
  result_is_absent absent e = refl
  result_is_absent error e = cc

  is_absent-IsAbsent :
      (m : String) (h : outcomes.Hash) (o : Option Outcome)
      → outcomes.hget m h ≡ o
      → is_absent o ≡ true
      → IsAbsent m h
  is_absent-IsAbsent m h none read e = cc
  is_absent-IsAbsent m h (some o) read e = (o, read, result_is_absent o.result e)

  all_absent-IsAbsent :
      (m : String) (ms : List String) (h : outcomes.Hash)
      → all_absent sv ms h ≡ true
      → elem m ms ≡ true
      → IsAbsent m h
  unfolding all_absent
  all_absent-IsAbsent m [] h all e = cc
  all_absent-IsAbsent m (k ∷ ks) h all e = elim (Bool-cases (str_eq k m)) [
    | inl same ↦
        is_absent-IsAbsent m h (outcomes.hget m h) refl (ground (arith, same, all, eq_iff k m))
    | inr other ↦ all_absent-IsAbsent m ks h (ground (arith, all)) (ground (arith, e, other))
  ]

  -- A pending case in which nobody has a job or a job lease of the second round is decided to be
  -- `external` only when every member has found the lead absent in both rounds, whatever
  -- claims, submissions, reaps and successes came between, and in whatever order.
  pub external_is_unanimous :
      (c d : Case sv)
      → c.status ≡ some pending
      → ((m : String)
          → (jobs.zscore m c.due_jobs.in_second ≡ none)
            × (leases.hget m c.job_leases.in_second ≡ none))
      → Reach sv c d
      → d.status ≡ some external
      → (m : String) → elem m c.members ≡ true
      → IsAbsent m d.results.in_first × IsAbsent m d.results.in_second
  external_is_unanimous c d open_ unopened r e m here_ =
      let f = Reach-IsFair c d r (record { gate = inr unopened; decided = λ h. cc }) in
      let (one, two) = f.decided e in
      let is_here : elem m d.members ≡ true = rw (Reach-Keeps sv c d r).members here_ in
      (
        all_absent-IsAbsent m d.members d.results.in_first one is_here,
        all_absent-IsAbsent m d.members d.results.in_second two is_here,
      )
