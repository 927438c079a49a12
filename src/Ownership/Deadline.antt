-- ===== src/Ownership/Deadline.antt =====
-- The end of every case.
use ip_proxy_pool.Base.{
  ℕ, ◌+◌, ◌≤◌, ◌<◌, ◌≡◌, ◌≢◌, ◌⊎◌, refl, ◌∙◌, subst, inl, inr, true, false, Option, none, some,
  String, arith, List, [], ◌∷◌, elem, length, str_eq, ltb, if◌then◌else◌, Bool-cases,
}
use ip_proxy_pool.Ownership.Defs.{
  Round, first, second, CheckResult, found, absent, error, pending, CaseServer, Case, Reply, code,
  error_reply, claim_job, close_round, write_result, reap, expire, reap_each, reap_expired, is_past,
  is_pending, confirm_success, marked, open_case,
}
use ip_proxy_pool.Ownership.Status.{
  Step, claims, submits, reaps, confirms, Reach, here, next, submit_result-cases, pending_status,
}

module _ (sv : CaseServer) (at : ℕ) where
  -- The case is among the deadlines, at the time `at`, as long as it is pending.
  abbrev IsTimed : Case sv → Type 0
  IsTimed c = c.status ≡ some pending → c.deadline ≡ some at

  claim_job-IsTimed :
      (now : ℕ) (member token : String) (round : Round) (c : Case sv)
      → IsTimed c
      → IsTimed (claim_job sv now member token round c).1
  unfolding claim_job
  claim_job-IsTimed now member token round c t = ground (arith, t)

  reap-IsTimed : (now : ℕ) (c : Case sv) → IsTimed c → IsTimed (reap sv now c)
  unfolding reap
  reap-IsTimed now c t = ground (arith, t)

  confirm_success-IsTimed :
      (entry received : ℕ) (c : Case sv) → IsTimed c → IsTimed (confirm_success sv entry received c)
  unfolding confirm_success
  confirm_success-IsTimed entry received c t = ground (arith, t)

  close_round-IsTimed :
      (now : ℕ) (round : Round) (c : Case sv) → IsTimed c → IsTimed (close_round sv now round c)
  unfolding close_round
  close_round-IsTimed now first c t = ground (arith, t)
  close_round-IsTimed now second c t = ground (arith, t)

  abbrev ReplyIsTimed : Reply sv → Type 0
  ReplyIsTimed error_reply = Unit
  ReplyIsTimed (code n d) = IsTimed d

  write_result-IsTimed :
      (now : ℕ) (member result_id : String) (round : Round) (result : CheckResult) (c : Case sv)
      → IsTimed c
      → ReplyIsTimed (write_result sv now member result_id round result c)
  unfolding write_result
  write_result-IsTimed now member result_id round error c t = t
  write_result-IsTimed now member result_id round found c t = λ h. cc
  write_result-IsTimed now member result_id round absent c t = close_round-IsTimed now round _ t

  Step-IsTimed : (c d : Case sv) → Step sv c d → IsTimed c → IsTimed d
  Step-IsTimed c d (claims now due member token round listed is_due) t =
      claim_job-IsTimed now member token round c t
  Step-IsTimed c d (submits now n member round result result_id token e) t =
      elim (submit_result-cases sv now n member round result result_id token c d e) [
        | inl (same, _) ↦ rw same t
        | inr (_, _, _, _, written) ↦ subst ReplyIsTimed written (
            write_result-IsTimed now member result_id round result
              (marked sv member result_id round result c) t)
      ]
  Step-IsTimed c d (reaps now) t = reap-IsTimed now c t
  Step-IsTimed c d (confirms entry received) t = confirm_success-IsTimed entry received c t

  Reach-IsTimed : (c d : Case sv) → Reach sv c d → IsTimed c → IsTimed d
  Reach-IsTimed c _ here t = t
  Reach-IsTimed c e (next {d} r s) t = Step-IsTimed d e s (Reach-IsTimed c d r t)

module _ (sv : CaseServer) where
  open_case-IsTimed :
      (now n : ℕ) (cycle_json creator : String) (members : List String) (entry receipt : Option ℕ)
      (c d : Case sv)
      → c.status ≡ none
      → open_case sv now cycle_json creator members entry receipt c ≡ code n d
      → IsTimed sv (now + 86400000) d
  unfolding open_case
  open_case-IsTimed now n cycle_json creator members entry receipt c d new e =
      ground (arith, new, e)

  -- What ZRANGEBYSCORE from -inf to `now` with a LIMIT from 0 on replies, by the cases' deadlines.
  pub record IsListing (now limit : ℕ) (listed : List String) (cases : String → Case sv)
      : Type 0 where
    pub overdue : (k : String) → elem k listed ≡ true → is_past sv now (cases k).deadline ≡ true
    pub limited : length listed ≤ limit
    pub complete :
        (k : String)
        → is_past sv now (cases k).deadline ≡ true
        → length listed < limit
        → elem k listed ≡ true

  -- The case is decided and has no deadline.
  pub record IsOver (c : Case sv) : Type 0 where
    pub decided : c.status ≢ some pending
    pub untimed : c.deadline ≡ none

  expire-IsOver : (c : Case sv) → IsOver (expire sv c)
  expire-IsOver c = record { decided = ground arith; untimed = ground arith }

  abbrev expired_at : String → (String → Case sv) → String → Case sv
  expired_at k cases j = if str_eq k j then expire sv (cases k) else cases j

  expired_at-IsOver :
      (k j : String) (cases : String → Case sv) → IsOver (cases j) → IsOver (expired_at k cases j)
  expired_at-IsOver k j cases over = elim (Bool-cases (str_eq k j)) [
    | inl same ↦ rw same (expire-IsOver (cases k))
    | inr other ↦ rw other over
  ]

  reap_each-IsOver :
      (ks : List String) (count : ℕ) (k : String) (cases : String → Case sv)
      → (elem k ks ≡ true) ⊎ IsOver (cases k)
      → IsOver ((reap_each sv ks count cases).1 k)
  unfolding reap_each
  reap_each-IsOver [] count k cases (inl e) = absurd (ground (arith, e))
  reap_each-IsOver [] count k cases (inr over) = over
  reap_each-IsOver (j ∷ ks) count k cases (inr over) =
      reap_each-IsOver ks _ k (expired_at j cases) (inr (expired_at-IsOver j k cases over))
  reap_each-IsOver (j ∷ ks) count k cases (inl e) = elim (Bool-cases (str_eq j k)) [
    | inl same ↦
        reap_each-IsOver ks _ k (expired_at j cases) (inr (rw same (expire-IsOver (cases j))))
    | inr other ↦ reap_each-IsOver ks _ k (expired_at j cases) (inl (ground (arith, e, other)))
  ]

  reap_each-unlisted :
      (ks : List String) (count : ℕ) (k : String) (cases : String → Case sv)
      → elem k ks ≡ false
      → (reap_each sv ks count cases).1 k ≡ cases k
  unfolding reap_each
  reap_each-unlisted [] count k cases e = refl
  reap_each-unlisted (j ∷ ks) count k cases e =
      let other : str_eq j k ≡ false = ground (arith, e) in
      reap_each-unlisted ks _ k (expired_at j cases) (ground (arith, e)) ∙ rw other refl

  reap_expired_ends :
      (at later : ℕ) (k : String) (listed : List String) (cases : String → Case sv)
      → IsTimed sv at (cases k)
      → at ≤ later
      → IsListing later 100 listed cases
      → ((reap_expired sv listed cases).1 k).status ≢ some pending ⊎ (length listed ≡ 100)
  unfolding reap_expired
  reap_expired_ends at later k listed cases t over l = elim (Bool-cases (elem k listed)) [
    | inl in_ ↦ inl (reap_each-IsOver listed 0 k cases (inl in_)).decided
    | inr out ↦ elim (Bool-cases (is_pending (cases k).status)) [
      | inr decided ↦
          inl (rw (reap_each-unlisted listed 0 k cases out) (λ e. ground (arith, e, decided)))
      | inl waits ↦
          let timed : (cases k).deadline ≡ some at = t (pending_status sv (cases k).status waits) in
          let past : is_past sv later (cases k).deadline ≡ true = rw timed (ground (arith, over)) in
          elim (Bool-cases (ltb (length listed) 100)) [
            | inl room ↦
                let in_ = l.complete k past (ground (arith, room)) in
                absurd (ground (arith, in_, out))
            | inr full ↦ inr (ground (arith, l.limited, full))
          ]
    ]
  ]

  -- A case that is opened at `now` is decided by any run of REAP_EXPIRED a day (of 86400000
  -- milliseconds) or more later, whatever happened to it in between, unless that run lists its
  -- limit of 100 cases; and every case that a run lists was overdue, is pending no longer, and is
  -- taken off the deadlines.
  pub no_case_stays_pending :
      (now n later : ℕ) (cycle_json creator : String) (members : List String)
      (entry receipt : Option ℕ) (k : String) (listed : List String) (cases : String → Case sv)
      (c d : Case sv)
      → c.status ≡ none
      → open_case sv now cycle_json creator members entry receipt c ≡ code n d
      → Reach sv d (cases k)
      → now + 86400000 ≤ later
      → IsListing later 100 listed cases
      → (((reap_expired sv listed cases).1 k).status ≢ some pending ⊎ (length listed ≡ 100))
        × ((j : String)
            → elem j listed ≡ true
            → (is_past sv later (cases j).deadline ≡ true)
              × IsOver ((reap_expired sv listed cases).1 j))
  unfolding reap_expired
  no_case_stays_pending now n later cycle_json creator members entry receipt k listed cases c d new
        opened r over l =
      let at = now + 86400000 in
      let t = open_case-IsTimed now n cycle_json creator members entry receipt c d new opened in
      (
        reap_expired_ends at later k listed cases (Reach-IsTimed sv at d (cases k) r t) over l,
        λ j in_. (l.overdue j in_, reap_each-IsOver listed 0 j cases (inl in_)),
      )
