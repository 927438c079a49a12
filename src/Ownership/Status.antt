-- ===== src/Ownership/Status.antt =====
-- How the status and the revision of a case move.
use ip_proxy_pool.Base.{
  ℕ, ◌+◌, ◌≤◌, ◌<◌, ◌≡◌, refl, subst, ◌⊎◌, inl, inr, true, Option, none, some, String, eq_iff,
  arith, Option-cases,
}
use ip_proxy_pool.Ownership.Defs.{
  Round, first, second, CheckResult, found, absent, error, Status, pending, internal, external,
  unconfirmed, CaseServer, Case, Reply, code, error_reply, of_round, claim_job, close_round,
  write_result, submit_result, reap, confirm_success, is_pending, is_current, signature, marked,
}

module _ (sv : CaseServer) where
  open sv use {jobs, markers, outcomes, leases}

  -- What can happen to a case that is there: a worker claims a job that is due, a member submits
  -- a result, a deadline is reaped, or a success of the cycle is registered.
  pub data Step (c : Case sv) : Case sv → Type 0 where
    claims :
        (now due : ℕ) (member token : String) (round : Round)
        → jobs.zscore member (of_round round c.due_jobs) ≡ some due
        → due ≤ now
        → Step c (claim_job sv now member token round c).1
    submits :
        (now n : ℕ) (member : String) (round : Round) (result : CheckResult)
        (result_id token : String) {c' : Case sv}
        → submit_result sv now member round result result_id token c ≡ code n c'
        → Step c c'
    reaps : (now : ℕ) → Step c (reap sv now c)
    confirms : (entry received : ℕ) → Step c (confirm_success sv entry received c)

  pub data Reach (c : Case sv) : Case sv → Type 0 where
    here : Reach c c
    next : {d e : Case sv} → Reach c d → Step d e → Reach c e

  -- Undecided, decided for now, and decided for good.
  abbrev pub rank : Option Status → ℕ
  rank none = 0
  rank (some pending) = 1
  rank (some external) = 2
  rank (some unconfirmed) = 2
  rank (some internal) = 3

  abbrev Advances : Case sv → Case sv → Type 0
  Advances c d =
      ((d.status ≡ c.status) × (d.revision ≡ c.revision))
      ⊎ ((rank c.status < rank d.status) × (d.revision ≡ c.revision + 1))

  claim_job-Advances :
      (now : ℕ) (member token : String) (round : Round) (c : Case sv)
      → Advances c (claim_job sv now member token round c).1
  unfolding claim_job
  claim_job-Advances now member token round c = ground arith

  reap-Advances : (now : ℕ) (c : Case sv) → Advances c (reap sv now c)
  unfolding reap
  reap-Advances now c = ground arith

  confirm_success-Advances :
      (entry received : ℕ) (c : Case sv) → Advances c (confirm_success sv entry received c)
  unfolding confirm_success
  confirm_success-Advances entry received c = ground arith

  close_round-Advances :
      (now : ℕ) (round : Round) (c : Case sv)
      → c.status ≡ some pending
      → Advances c (close_round sv now round c)
  unfolding close_round
  close_round-Advances now first c h = ground arith
  close_round-Advances now second c h = ground arith

  -- What a script that answers `code` has done.
  abbrev ReplyAdvances : Case sv → Reply sv → Type 0
  ReplyAdvances c error_reply = Unit
  ReplyAdvances c (code n d) = Advances c d

  write_result-Advances :
      (now : ℕ) (member result_id : String) (round : Round) (result : CheckResult) (c : Case sv)
      → c.status ≡ some pending
      → ReplyAdvances c (write_result sv now member result_id round result c)
  unfolding write_result
  write_result-Advances now member result_id round error c h = inl (refl, refl)
  write_result-Advances now member result_id round found c h = inr (rw h (omega arith), refl)
  write_result-Advances now member result_id round absent c h = close_round-Advances now round _ h

  pub pending_status : (s : Option Status) → is_pending s ≡ true → s ≡ some pending
  pending_status none h = cc
  pending_status (some pending) h = refl
  pending_status (some internal) h = cc
  pending_status (some external) h = cc
  pending_status (some unconfirmed) h = cc

  -- What an answer of SUBMIT_RESULT with a number tells: it repeats an earlier one, or the result
  -- is the first of a job that the member holds.
  pub submit_result-cases :
      (now n : ℕ) (member : String) (round : Round) (result : CheckResult)
      (result_id token : String) (c d : Case sv)
      → submit_result sv now member round result result_id token c ≡ code n d
      → ((d ≡ c)
          × (markers.hget result_id c.result_ids ≡ some (signature c.case_id member round result)))
        ⊎ ((is_pending c.status ≡ true)
            × (markers.hget result_id c.result_ids ≡ none)
            × (outcomes.hget member (of_round round c.results) ≡ none)
            × (is_current now token (leases.hget member (of_round round c.job_leases)) ≡ true)
            × (write_result sv now member result_id round result
                  (marked sv member result_id round result c)
                ≡ code n d))
  unfolding submit_result
  submit_result-cases now n member round result result_id token c d e =
      elim (Option-cases (markers.hget result_id c.result_ids)) [
        | inl fresh ↦ ground (arith, fresh, e)
        | inr (prior, seen) ↦ inl (
          ground (arith, seen, e),
          ground (arith, seen, e, eq_iff prior (signature c.case_id member round result)),
        )
      ]

  Step-Advances : (c d : Case sv) → Step c d → Advances c d
  Step-Advances c d (claims now due member token round listed at) =
      claim_job-Advances now member token round c
  Step-Advances c d (submits now n member round result result_id token e) =
      elim (submit_result-cases now n member round result result_id token c d e) [
        | inl (same, _) ↦ inl (rw same refl, rw same refl)
        | inr (open_, _, _, _, written) ↦ subst (ReplyAdvances c) written (
            write_result-Advances now member result_id round result
              (marked sv member result_id round result c) (pending_status c.status open_))
      ]
  Step-Advances c d (reaps now) = reap-Advances now c
  Step-Advances c d (confirms entry received) = confirm_success-Advances entry received c

  -- Whatever scripts run on a case, and in whatever order: its decision is kept or replaced by a
  -- stronger one (pending, then external or unconfirmed, then internal), the revision counts the
  -- changes, so that it never goes back and grows by no more than the decision does, and two
  -- states of the case with the same revision have the same status.
  pub revision_counts_decisions :
      (c d : Case sv)
      → Reach c d
      → (c.revision ≤ d.revision)
        × (d.revision + rank c.status ≤ c.revision + rank d.status)
        × (d.revision ≡ c.revision → d.status ≡ c.status)
  revision_counts_decisions c _ here = (omega arith, omega arith, λ _. refl)
  revision_counts_decisions c e (next {d} r s) =
      let (up, bound, same) = revision_counts_decisions c d r in
      elim (Step-Advances d e s) [
        | inl (kept, still) ↦
            (omega (arith, still), rw (kept, still) bound, λ h. rw kept (same (rw (← still) h)))
        | inr (stronger, more) ↦ (
          omega (arith, more),
          omega (arith, bound, stronger, more),
          λ h. absurd (omega (arith, h, more, up)),
        )
      ]
