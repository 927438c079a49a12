-- ===== src/Tests/Ownership.antt =====
-- The theorems on cases at concrete inputs: one member, which finds the lead absent twice.
use ip_proxy_pool.Base.{
  ℕ, ◌+◌, ◌≡◌, ◌≢◌, refl, elem, str_eq, true, false, none, some, [], ◌∷◌, String, leb, arith, ◌≤◌,
  ◌⊎◌, inl, inr, Bool-cases, eq_iff, length, if◌then◌else◌,
}
use ip_proxy_pool.Ownership.Defs.{
  Round, first, second, CheckResult, absent, pending, external, CaseServer, Case, Reply, code,
  error_reply, claim_job, close_round, write_result, submit_result, reap_expired, is_past,
  open_case, signature, all_absent, add_jobs,
}
use ip_proxy_pool.Ownership.Status.{
  claims, submits, Reach, here, next, rank, revision_counts_decisions,
}
use ip_proxy_pool.Ownership.Rounds.{external_is_unanimous, IsAbsent}
use ip_proxy_pool.Ownership.Replay.{submission_is_idempotent}
use ip_proxy_pool.Ownership.Deadline.{no_case_stays_pending, IsListing, IsOver}
use ip_proxy_pool.Tests.Memory.{memory, sorted_memory}

abbrev case_server : CaseServer
case_server = record {
  outcomes = memory;
  leases = memory;
  markers = memory;
  jobs = sorted_memory leb;
}

abbrev no_case : Case case_server
no_case = record {
  case_id = "k";
  cycle_json = "";
  members = [];
  creator_member = "";
  created_at = 0;
  status = none;
  revision = 0;
  check_errors = 0;
  first_round_completed_at = none;
  deadline = none;
  results = record { in_first = []; in_second = [] };
  job_leases = record { in_first = []; in_second = [] };
  due_jobs = record { in_first = []; in_second = [] };
  result_ids = [];
}

abbrev case_of : Reply case_server → Case case_server
case_of (code n c) = c
case_of error_reply = no_case

abbrev opened : Case case_server
opened = case_of (open_case case_server 100 "cycle" "m" ("m" ∷ []) none none no_case)

abbrev held : Case case_server
held = (claim_job case_server 200 "m" "one" first opened).1

abbrev halfway : Case case_server
halfway = case_of (submit_result case_server 300 "m" first absent "r1" "one" held)

abbrev held_again : Case case_server
held_again = (claim_job case_server 40000 "m" "two" second halfway).1

abbrev decided : Case case_server
decided = case_of (submit_result case_server 50000 "m" second absent "r2" "two" held_again)

opens : open_case case_server 100 "cycle" "m" ("m" ∷ []) none none no_case ≡ code 1 opened
unfolding open_case
opens = refl

first_submission : submit_result case_server 300 "m" first absent "r1" "one" held ≡ code 3 halfway
unfolding open_case claim_job submit_result write_result close_round all_absent add_jobs
first_submission = refl

second_submission :
    submit_result case_server 50000 "m" second absent "r2" "two" held_again ≡ code 3 decided
unfolding open_case claim_job submit_result write_result close_round all_absent add_jobs
second_submission = refl

job_is_due : case_server.jobs.zscore "m" opened.due_jobs.in_first ≡ some 100
unfolding open_case add_jobs
job_is_due = refl

job_is_due_again : case_server.jobs.zscore "m" halfway.due_jobs.in_second ≡ some 30100
unfolding open_case claim_job submit_result write_result close_round all_absent add_jobs
job_is_due_again = refl

to_decision : Reach case_server halfway decided
to_decision =
    next (next here (claims 40000 30100 "m" "two" second job_is_due_again (omega arith)))
      (submits 50000 3 "m" second absent "r2" "two" second_submission)

whole : Reach case_server opened decided
whole =
    next
      (next
        (next (next here (claims 200 100 "m" "one" first job_is_due (omega arith)))
          (submits 300 3 "m" first absent "r1" "one" first_submission))
        (claims 40000 30100 "m" "two" second job_is_due_again (omega arith)))
      (submits 50000 3 "m" second absent "r2" "two" second_submission)

is_pending_opened : opened.status ≡ some pending
unfolding open_case
is_pending_opened = refl

is_external : decided.status ≡ some external
unfolding open_case claim_job submit_result write_result close_round all_absent add_jobs
is_external = refl

revision_counts_decisions_example :
    (opened.revision ≤ decided.revision)
    × (decided.revision + rank case_server opened.status
        ≤ opened.revision + rank case_server decided.status)
    × (decided.revision ≡ opened.revision → decided.status ≡ opened.status)
revision_counts_decisions_example = revision_counts_decisions case_server opened decided whole

external_is_unanimous_example :
    IsAbsent case_server "m" decided.results.in_first
    × IsAbsent case_server "m" decided.results.in_second
unfolding open_case add_jobs
external_is_unanimous_example =
    external_is_unanimous case_server opened decided is_pending_opened (λ m. (refl, refl)) whole
      is_external "m" refl

-- A case by the name `k`, still pending at its deadline, and no other.
abbrev cases : String → Case case_server
cases name = if str_eq name "k" then halfway else no_case

to_halfway : Reach case_server opened (cases "k")
to_halfway =
    next (next here (claims 200 100 "m" "one" first job_is_due (omega arith)))
      (submits 300 3 "m" first absent "r1" "one" first_submission)

only_k : (name : String) → str_eq name "k" ≡ str_eq "k" name
only_k name = ground (arith, eq_iff name "k", eq_iff "k" name)

one_is_due : IsListing case_server 86400100 100 ("k" ∷ []) cases
unfolding open_case claim_job submit_result write_result close_round all_absent add_jobs
one_is_due = record {
  overdue = λ name listed. elim (Bool-cases (str_eq name "k")) [
    | inl same ↦ rw same (ground arith)
    | inr other ↦ absurd (ground (arith, listed, other, only_k name))
  ];
  limited = omega arith;
  complete = λ name past room. elim (Bool-cases (str_eq name "k")) [
    | inl same ↦ ground (arith, same, only_k name)
    | inr other ↦ absurd (ground (arith, other, past))
  ];
}

no_case_stays_pending_example :
    (((reap_expired case_server ("k" ∷ []) cases).1 "k").status ≢ some pending
      ⊎ (length {A = String} ("k" ∷ []) ≡ 100))
    × ((j : String)
        → elem j ("k" ∷ []) ≡ true
        → (is_past case_server 86400100 (cases j).deadline ≡ true)
          × IsOver case_server ((reap_expired case_server ("k" ∷ []) cases).1 j))
no_case_stays_pending_example =
    no_case_stays_pending case_server 100 1 86400100 "cycle" "m" ("m" ∷ []) none none "k" ("k" ∷ [])
      cases no_case opened refl opens to_halfway (omega arith) one_is_due

-- The member sends its first result again, and then another one, when the case is decided.
submission_is_idempotent_example :
    ((later : ℕ) (other : String)
      → submit_result case_server later "m" first absent "r1" other decided ≡ code 0 decided)
    × ((later : ℕ) (sender : String) (at : Round) (claim : CheckResult) (other : String)
        → elem sender ("m" ∷ []) ≡ true
        → str_eq (signature "k" "m" first absent) (signature "k" sender at claim) ≡ false
        → submit_result case_server later sender at claim "r1" other decided ≡ error_reply)
unfolding open_case claim_job
submission_is_idempotent_example =
    submission_is_idempotent case_server 300 3 "m" first absent "r1" "one" held halfway decided
      first_submission to_decision
