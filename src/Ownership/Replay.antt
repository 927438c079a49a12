-- ===== src/Ownership/Replay.antt =====
-- Results that are sent again.
use ip_proxy_pool.Base.{
  ℕ, ◌≡◌, refl, sym, subst, inl, inr, true, false, some, String, is_some, arith, str_eq,
  if◌then◌else◌, elem, eq_refl,
}
use ip_proxy_pool.Ownership.Defs.{
  Round, CheckResult, CaseServer, Case, code, error_reply, submit_result, marked, signature,
}
use ip_proxy_pool.Ownership.Status.{Reach, submit_result-cases}
use ip_proxy_pool.Ownership.Frames.{
  Keeps, Reach-Keeps, write_result-Keeps, ReplyKeeps, Keeps-refl, Keeps-trans, marked-Keeps,
}

module _ (sv : CaseServer) where
  open sv use {markers}

  submit_result-member :
      (now n : ℕ) (member : String) (round : Round) (result : CheckResult)
      (result_id token : String) (c d : Case sv)
      → submit_result sv now member round result result_id token c ≡ code n d
      → (is_some c.status ≡ true) × (elem member c.members ≡ true)
  unfolding submit_result
  submit_result-member now n member round result result_id token c d e =
      (ground (arith, e), ground (arith, e))

  hget-hset-same :
      (k : String) (s : String) (h : markers.Hash) → markers.hget k (markers.hset k s h) ≡ some s
  hget-hset-same k s h = ground (arith, markers.hget-hset k k s h, eq_refl k)

  -- Whether the identifier is new or not, the answer stores what was sent under it.
  submission_is_stored :
      (now n : ℕ) (member : String) (round : Round) (result : CheckResult)
      (result_id token : String) (c d : Case sv)
      → submit_result sv now member round result result_id token c ≡ code n d
      → Keeps sv c d
        × (markers.hget result_id d.result_ids ≡ some (signature c.case_id member round result))
  submission_is_stored now n member round result result_id token c d e =
      let s : String = signature c.case_id member round result in
      let begun = marked sv member result_id round result c in
      elim (submit_result-cases sv now n member round result result_id token c d e) [
        | inl (same, seen) ↦ (subst (Keeps sv c) (sym same) (Keeps-refl sv c), rw same seen)
        | inr (_, fresh, _, _, written) ↦
            let k =
              subst (ReplyKeeps sv begun) written
                (write_result-Keeps sv now member result_id round result begun) in
            (
              Keeps-trans sv c begun d (marked-Keeps sv member result_id round result c fresh) k,
              k.ids result_id s (hget-hset-same result_id s c.result_ids),
            )
      ]

  submit_again :
      (now : ℕ) (member : String) (round : Round) (result : CheckResult) (result_id token : String)
      (e : Case sv) (prior : String)
      → is_some e.status ≡ true
      → elem member e.members ≡ true
      → markers.hget result_id e.result_ids ≡ some prior
      → submit_result sv now member round result result_id token e
        ≡ (if str_eq prior (signature e.case_id member round result) then code 0 e else error_reply)
  unfolding submit_result
  submit_again now member round result result_id token e prior exists known stored =
      ground (arith, exists, known, stored)

  -- Once a result has been accepted, sending it again under its identifier is answered with 0 and
  -- writes nothing, at any later state of the case, decided or not, and with any token; and a
  -- member of the case that sends under that identifier what has another text gets an error.
  pub submission_is_idempotent :
      (now n : ℕ) (member : String) (round : Round) (result : CheckResult)
      (result_id token : String) (c d e : Case sv)
      → submit_result sv now member round result result_id token c ≡ code n d
      → Reach sv d e
      → ((later : ℕ) (other : String)
          → submit_result sv later member round result result_id other e ≡ code 0 e)
        × ((later : ℕ) (sender : String) (at : Round) (claim : CheckResult) (other : String)
            → elem sender c.members ≡ true
            → str_eq (signature c.case_id member round result) (signature c.case_id sender at claim)
              ≡ false
            → submit_result sv later sender at claim result_id other e ≡ error_reply)
  submission_is_idempotent now n member round result result_id token c d e sent r =
      let (k, stored) = submission_is_stored now n member round result result_id token c d sent in
      let (exists, known) =
        submit_result-member now n member round result result_id token c d sent in
      let all = Keeps-trans sv c d e k (Reach-Keeps sv d e r) in
      let kept = (Reach-Keeps sv d e r).ids result_id _ stored in
      (
        λ later other.
            rw
              (
                submit_again later member round result result_id other e _ (all.exists exists)
                    (rw all.members known) kept,
                all.case_id,
                eq_refl (signature c.case_id member round result),
              )
              refl,
        λ later sender at claim other here differs.
            rw
              (
                submit_again later sender at claim result_id other e _ (all.exists exists)
                    (rw all.members here) kept,
                all.case_id,
                differs,
              )
              refl,
      )
