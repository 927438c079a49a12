-- ===== src/Ownership/Defs.antt =====
-- The keys of one case, and the scripts over them. Times are the milliseconds of the Redis clock.
mod Types
pub use Types.*
use ip_proxy_pool.Base.{
  ℕ, ◌+◌, max, Bool, true, false, not, ◌&&◌, ◌||◌, Option, none, some, List, [], ◌∷◌, String,
  str_eq, leb, ltb, if◌then◌else◌, is_some, elem,
}
use Prim.Native.String.{◌++◌}
use ip_proxy_pool.Redis.{HashCommands, SetCommands}

module _ (sv : CaseServer) where
  open sv use {outcomes, leases, markers, jobs}

  -- The hash of the case (which is there when it has a status), its time among the deadlines, and by round the members' results, job
  -- leases and due jobs; with the identifiers of results.
  pub record Case : Type 0 where
    pub case_id : String
    pub cycle_json : String
    pub members : List String
    pub creator_member : String
    pub created_at : ℕ
    pub status : Option Status
    pub revision : ℕ
    pub check_errors : ℕ
    pub first_round_completed_at : Option ℕ
    pub deadline : Option ℕ
    pub results : Both outcomes.Hash
    pub job_leases : Both leases.Hash
    pub due_jobs : Both jobs.ZSet
    pub result_ids : markers.Hash

  -- A script answers with a number and what it wrote, or with an error and no write.
  pub data Reply : Type 0 where
    code : ℕ → Case → Reply
    error_reply : Reply

  -- ZREM and ZADD of one job in the sets of all members.
  unfoldable pub remove_jobs : List String → jobs.ZSet → jobs.ZSet
  remove_jobs [] z = z
  remove_jobs (m ∷ ms) z = remove_jobs ms (jobs.zrem m z)

  unfoldable pub add_jobs : List String → ℕ → jobs.ZSet → jobs.ZSet
  add_jobs [] at z = z
  add_jobs (m ∷ ms) at z = add_jobs ms at (jobs.zadd m at z)

  abbrev clear_jobs : List String → Both jobs.ZSet → Both jobs.ZSet
  clear_jobs ms b = record {
    in_first = remove_jobs ms b.in_first;
    in_second = remove_jobs ms b.in_second;
  }

  -- The writes that end a case.
  abbrev pub resolve : Status → Case → Case
  resolve status c = record c {
    status = some status;
    revision = c.revision + 1;
    deadline = none;
    due_jobs = clear_jobs c.members c.due_jobs;
  }

  -- CLAIM_JOB at one job of the member: whether it is handed out, and the case after it. The
  -- script comes to the jobs that are due.
  unfoldable pub claim_job : (now : ℕ) → (member token : String) → Round → Case → Bool × Case
  claim_job now member token round c =
      if not (is_pending c.status) || is_some (outcomes.hget member (of_round round c.results))
      then (false, record c { due_jobs = change round (jobs.zrem member) c.due_jobs })
      else if is_over now (leases.hget member (of_round round c.job_leases))
      then (
        true,
        record c {
          job_leases =
              change round (leases.hset member (record { token = token; expires_at = now + 30000 }))
                c.job_leases;
        },
      )
      else (false, c)

  -- Every member of the list has an absence in the round.
  unfoldable pub all_absent : List String → outcomes.Hash → Bool
  all_absent [] h = true
  all_absent (m ∷ ms) h = is_absent (outcomes.hget m h) && all_absent ms h

  -- The end of SUBMIT_RESULT, when an absence has been written.
  unfoldable pub close_round : (now : ℕ) → Round → Case → Case
  close_round now first c =
      if all_absent c.members c.results.in_first
      then record c {
        first_round_completed_at = some now;
        due_jobs =
            change second (add_jobs c.members (max (now + 15000) (c.created_at + 30000)))
              c.due_jobs;
      }
      else c
  close_round now second c =
      if all_absent c.members c.results.in_second
      then record c { status = some external; revision = c.revision + 1; deadline = none }
      else c

  -- SUBMIT_RESULT after its checks and its write of the identifier, by the result. The counter of
  -- the errors of all cases, which an error counts up as well, is no key of the case and left out.
  unfoldable pub write_result :
      (now : ℕ) → (member result_id : String) → Round → CheckResult → Case → Reply
  unfolding close_round
  write_result now member result_id round error c = code 1 (record c {
    check_errors = c.check_errors + 1;
    due_jobs = change round (jobs.zadd member (now + 30000)) c.due_jobs;
  })
  write_result now member result_id round found c = code 2 (
      resolve internal (record c {
        results =
            change round (outcomes.hset member (record { result_id = result_id; result = found }))
              c.results;
        due_jobs = change round (jobs.zrem member) c.due_jobs;
      }))
  write_result now member result_id round absent c = code 3 (
      close_round now round (record c {
        results =
            change round (outcomes.hset member (record { result_id = result_id; result = absent }))
              c.results;
        due_jobs = change round (jobs.zrem member) c.due_jobs;
      }))

  -- The identifier is stored and the job lease deleted.
  abbrev pub marked : (member result_id : String) → Round → CheckResult → Case → Case
  marked member result_id round result c = record c {
    result_ids = markers.hset result_id (signature c.case_id member round result) c.result_ids;
    job_leases = change round (leases.hdel member) c.job_leases;
  }

  -- SUBMIT_RESULT.
  unfoldable pub submit_result :
      (now : ℕ)
      → (member : String) → Round
      → CheckResult
      → (result_id token : String) → Case
      → Reply
  submit_result now member round result result_id token c =
      if not (is_some c.status)
      then error_reply
      else if not (elem member c.members)
      then error_reply
      else elim (markers.hget result_id c.result_ids) [
        | some prior ↦
            if str_eq prior (signature c.case_id member round result) then code 0 c else error_reply
        | none ↦
            if not (is_pending c.status)
            then error_reply
            else if is_some (outcomes.hget member (of_round round c.results))
            then error_reply
            else if not (is_current now token (leases.hget member (of_round round c.job_leases)))
            then error_reply
            else write_result now member result_id round result
                (marked member result_id round result c)
      ]

  abbrev pub is_past : (now : ℕ) → Option ℕ → Bool
  is_past now none = false
  is_past now (some d) = leb d now

  -- The body of the loop of REAP_EXPIRED.
  abbrev pub expire : Case → Case
  expire c = if is_pending c.status then resolve unconfirmed c else record c { deadline = none }

  -- REAP_EXPIRED at one case, when it comes to it.
  unfoldable pub reap : (now : ℕ) → Case → Case
  reap now c = if is_past now c.deadline then expire c else c

  -- The loop over the identifiers that are listed, with the count of the cases that it decides.
  unfoldable pub reap_each : List String → ℕ → (String → Case) → ℕ × (String → Case)
  reap_each [] count cases = (count, cases)
  reap_each (k ∷ ks) count cases =
      reap_each ks (if is_pending (cases k).status then count + 1 else count)
        (λ j. if str_eq k j then expire (cases k) else cases j)

  -- REAP_EXPIRED over the cases by their identifiers: `listed` is the reply of ZRANGEBYSCORE.
  unfoldable pub reap_expired : (listed : List String) → (String → Case) → ℕ × (String → Case)
  unfolding reap_each
  reap_expired listed cases = reap_each listed 0 cases

  -- The part of the success script that turns the cases of a cycle to `internal`: `entry` is the
  -- cycle's entry time and `received` the receipt's.
  unfoldable pub confirm_success : (entry received : ℕ) → Case → Case
  confirm_success entry received c =
      if ltb 0 entry && (leb entry received && (leb entry c.created_at && may_confirm c.status))
      then resolve internal c
      else c

  -- Whether a success receipt of the cycle, with its server time, makes a new case internal. The
  -- entry time is there when the cycle has a digest.
  abbrev is_settled : (now : ℕ) → (entry receipt : Option ℕ) → Bool
  is_settled now none receipt = false
  is_settled now (some entry) none = false
  is_settled now (some entry) (some received) = leb entry received && leb received now

  abbrev same_members : List String → List String → Bool
  same_members [] [] = true
  same_members (x ∷ xs) (y ∷ ys) = str_eq x y && same_members xs ys
  same_members _ _ = false

  -- OPEN_CASE, on the keys that `c` names.
  unfoldable pub open_case :
      (now : ℕ)
      → (cycle_json creator : String) → (members : List String) → (entry receipt : Option ℕ) → Case
      → Reply
  open_case now cycle_json creator members entry receipt c =
      let opened = record c {
        cycle_json = cycle_json;
        members = members;
        creator_member = creator;
        created_at = now;
        check_errors = 0;
        first_round_completed_at = none;
      } in
      if is_some c.status
      then if str_eq c.cycle_json cycle_json && same_members c.members members
        then code 0 c
        else error_reply
      else if is_settled now entry receipt
      then code 1 (record opened { status = some internal; revision = 1 })
      else code 1 (record opened {
        status = some pending;
        revision = 0;
        deadline = some (now + 86400000);
        due_jobs = change first (add_jobs members now) c.due_jobs;
      })
