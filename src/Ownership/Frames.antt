-- ===== src/Ownership/Frames.antt =====
-- What the scripts of a case leave alone.
use ip_proxy_pool.Base.{
  ℕ, ◌≡◌, refl, sym, ◌∙◌, subst, inl, inr, true, none, some, String, is_some, arith, eq_iff,
}
use ip_proxy_pool.Ownership.Defs.{
  Round, first, second, CheckResult, found, absent, error, CaseServer, Case, Reply, code,
  error_reply, claim_job, close_round, write_result, reap, confirm_success, marked,
}
use ip_proxy_pool.Ownership.Status.{
  Step, claims, submits, reaps, confirms, Reach, here, next, submit_result-cases,
}

module _ (sv : CaseServer) where
  open sv use {markers}

  pub claim_job-results :
      (now : ℕ) (member token : String) (round : Round) (c : Case sv)
      → ((claim_job sv now member token round c).1.results ≡ c.results)
        × ((claim_job sv now member token round c).1.members ≡ c.members)
        × ((claim_job sv now member token round c).1.status ≡ c.status)
  unfolding claim_job
  claim_job-results now member token round c = (ground arith, ground arith, ground arith)

  -- The case stays the same case, and forgets no identifier of a result.
  pub record Keeps (c d : Case sv) : Type 0 where
    pub case_id : d.case_id ≡ c.case_id
    pub members : d.members ≡ c.members
    pub exists : is_some c.status ≡ true → is_some d.status ≡ true
    pub ids :
        (k : String) (s : String)
        → markers.hget k c.result_ids ≡ some s
        → markers.hget k d.result_ids ≡ some s

  pub Keeps-refl : (c : Case sv) → Keeps c c
  Keeps-refl c = record { case_id = refl; members = refl; exists = λ h. h; ids = λ k s h. h }

  pub Keeps-trans : (c d e : Case sv) → Keeps c d → Keeps d e → Keeps c e
  Keeps-trans c d e f g = record {
    case_id = g.case_id ∙ f.case_id;
    members = g.members ∙ f.members;
    exists = λ h. g.exists (f.exists h);
    ids = λ k s h. g.ids k s (f.ids k s h);
  }

  claim_job-Keeps :
      (now : ℕ) (member token : String) (round : Round) (c : Case sv)
      → Keeps c (claim_job sv now member token round c).1
  unfolding claim_job
  claim_job-Keeps now member token round c = record {
    case_id = ground arith;
    members = ground arith;
    exists = λ h. ground (arith, h);
    ids = λ k s h. ground (arith, h);
  }

  reap-Keeps : (now : ℕ) (c : Case sv) → Keeps c (reap sv now c)
  unfolding reap
  reap-Keeps now c = record {
    case_id = ground arith;
    members = ground arith;
    exists = λ h. ground (arith, h);
    ids = λ k s h. ground (arith, h);
  }

  confirm_success-Keeps :
      (entry received : ℕ) (c : Case sv) → Keeps c (confirm_success sv entry received c)
  unfolding confirm_success
  confirm_success-Keeps entry received c = record {
    case_id = ground arith;
    members = ground arith;
    exists = λ h. ground (arith, h);
    ids = λ k s h. ground (arith, h);
  }

  close_round-Keeps : (now : ℕ) (round : Round) (c : Case sv) → Keeps c (close_round sv now round c)
  unfolding close_round
  close_round-Keeps now first c = record {
    case_id = ground arith;
    members = ground arith;
    exists = λ h. ground (arith, h);
    ids = λ k s h. ground (arith, h);
  }
  close_round-Keeps now second c = record {
    case_id = ground arith;
    members = ground arith;
    exists = λ h. ground (arith, h);
    ids = λ k s h. ground (arith, h);
  }

  -- What a script that answers with a number has kept.
  abbrev pub ReplyKeeps : Case sv → Reply sv → Type 0
  ReplyKeeps c error_reply = Unit
  ReplyKeeps c (code n d) = Keeps c d

  pub write_result-Keeps :
      (now : ℕ) (member result_id : String) (round : Round) (result : CheckResult) (c : Case sv)
      → ReplyKeeps c (write_result sv now member result_id round result c)
  unfolding write_result
  write_result-Keeps now member result_id round error c = record {
    case_id = refl;
    members = refl;
    exists = λ h. h;
    ids = λ k s h. h;
  }
  write_result-Keeps now member result_id round found c = record {
    case_id = refl;
    members = refl;
    exists = λ h. refl;
    ids = λ k s h. h;
  }
  write_result-Keeps now member result_id round absent c =
      let k = close_round-Keeps now round _ in
      record { case_id = k.case_id; members = k.members; exists = k.exists; ids = k.ids }

  hget-hset-fresh :
      (new k : String) (v s : String) (h : markers.Hash)
      → markers.hget new h ≡ none
      → markers.hget k h ≡ some s
      → markers.hget k (markers.hset new v h) ≡ some s
  hget-hset-fresh new k v s h fresh e =
      ground (arith, fresh, e, markers.hget-hset k new v h, eq_iff new k)

  pub marked-Keeps :
      (member result_id : String) (round : Round) (result : CheckResult) (c : Case sv)
      → markers.hget result_id c.result_ids ≡ none
      → Keeps c (marked sv member result_id round result c)
  marked-Keeps member result_id round result c fresh = record {
    case_id = refl;
    members = refl;
    exists = λ h. h;
    ids = λ k s h. hget-hset-fresh result_id k _ s c.result_ids fresh h;
  }

  ReplyKeeps-trans : (c d : Case sv) (r : Reply sv) → Keeps c d → ReplyKeeps d r → ReplyKeeps c r
  ReplyKeeps-trans c d error_reply f g = tt
  ReplyKeeps-trans c d (code n e) f g = Keeps-trans c d e f g

  Step-Keeps : (c d : Case sv) → Step sv c d → Keeps c d
  Step-Keeps c d (claims now due member token round listed at) =
      claim_job-Keeps now member token round c
  Step-Keeps c d (submits now n member round result result_id token e) =
      elim (submit_result-cases sv now n member round result result_id token c d e) [
        | inl (same, _) ↦ subst (Keeps c) (sym same) (Keeps-refl c)
        | inr (_, fresh, _, _, written) ↦ subst (ReplyKeeps c) written (
            ReplyKeeps-trans c _ _ (marked-Keeps member result_id round result c fresh) (
              write_result-Keeps now member result_id round result
                (marked sv member result_id round result c)))
      ]
  Step-Keeps c d (reaps now) = reap-Keeps now c
  Step-Keeps c d (confirms entry received) = confirm_success-Keeps entry received c

  pub Reach-Keeps : (c d : Case sv) → Reach sv c d → Keeps c d
  Reach-Keeps c _ here = Keeps-refl c
  Reach-Keeps c e (next {d} r s) = Keeps-trans c d e (Reach-Keeps c d r) (Step-Keeps d e s)
