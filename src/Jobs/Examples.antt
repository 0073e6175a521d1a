-- ===== src/Jobs/Examples.antt =====
-- A small jobs table, what the operations of Jobs do on it, and the theorems at it.
use text.Mathlib.TextEquality.{eq_iff}
use reflowfy.Prelude.{
  ◌&&◌, leb, map, ℕ, ◌+◌, ◌≤◌, String, true, false, none, some, List, [], ◌∷◌, ◌≡◌, ◌≢◌, refl,
  arith, All,
}
use reflowfy.Prelude.Sql.{Rows, count, select, first, any, order_by, insert_by, update}
use reflowfy.Json.{empty_object}
use reflowfy.Jobs.{Job, JobState}
use reflowfy.Jobs.Manager.{
  Table, Leases, JobRow, create_jobs, get_pending_jobs, mark_job_dispatched, reclaim_expired_leases,
}
use reflowfy.Jobs.Worker.{claim_job, heartbeat_job}
use reflowfy.Jobs.Steps.{Step, Run, Moves, Step-Moves, here, next}
use reflowfy.Jobs.Attempts.{IsCapped, IsDistributed}
use reflowfy.Jobs.Attempts.Starts.{attempts_of, starts, starts_capped}
use reflowfy.Jobs.Claims.{IsKeyed, state_of, claim_exclusive}
use reflowfy.Jobs.Sweeps.{swept, is_silent, is_unheard, reclaim_complete}

abbrev job : String → ℕ → JobState → ℕ → ℕ → Job
job id batch state attempts updated = record {
  job_id = id;
  execution_id = "e";
  job_payload = empty_object;
  batch_number = some batch;
  state = state;
  attempts = attempts;
  processed_records = 0;
  error_message = none;
  error_traceback = none;
  stats = none;
  created_at = 1;
  updated_at = updated;
  dispatched_at = some 1;
  completed_at = none;
}

-- One job waits, one is sent, two run with an old and a new heartbeat, one is out of attempts.
abbrev table : Table
table =
    job "b" 2 JobState.pending 0 1
    ∷ job "a" 1 JobState.pending 1 1
    ∷ job "c" 2 JobState.dispatched 1 1
    ∷ job "d" 2 JobState.running 1 1
    ∷ job "f" 2 JobState.running 2 90
    ∷ job "g" 2 JobState.running 3 1
    ∷ []

abbrev leases : Leases
leases = record { running_lease = 50; dispatch_lease = 60; max_attempts = 3; lost = "Worker lost" }

abbrev two : Table
two = job "a" 1 JobState.pending 0 1 ∷ job "b" 1 JobState.pending 0 1 ∷ []

abbrev rows : List JobRow
rows =
    record { execution_id = "e"; job_id = "a"; job_payload = empty_object; batch_number = 1 }
    ∷ record { execution_id = "e"; job_id = "a"; job_payload = empty_object; batch_number = 2 }
    ∷ []

create_jobs_duplicate : create_jobs 1 rows [] ≡ none
unfolding create_jobs any
create_jobs_duplicate = refl

get_pending_jobs_test :
    get_pending_jobs "e" 5 table
    ≡ job "a" 1 JobState.pending 1 1 ∷ job "b" 2 JobState.pending 0 1 ∷ []
unfolding get_pending_jobs select order_by insert_by
get_pending_jobs_test = refl

two-IsKeyed : IsKeyed two
two-IsKeyed = ((λ e. cc ((eq_iff "b" "a").1 e), tt), (tt, tt))

state_of_a : state_of "a" two ≢ none
state_of_a h = cc

-- The first delivery runs, beats once and loses no lease: a second delivery is turned away.
claim_exclusive_example :
    (claim_job true 9 "a" (heartbeat_job 7 "a" (claim_job true 5 "a" two).1)).0 ≢ none
claim_exclusive_example =
    claim_exclusive 5 9 "a" two (heartbeat_job 7 "a" (claim_job true 5 "a" two).1) two-IsKeyed
      state_of_a (next here (Step.beat 7 "a" (claim_job true 5 "a" two).1) tt)

two-IsCapped : All (IsCapped 3) two
two-IsCapped = ground arith

-- Started, lost, and started again.
abbrev lost : Table
lost = (reclaim_expired_leases leases 100 "e" (claim_job true 5 "a" two).1).1

abbrev restarted : Run (IsDistributed 3) two (claim_job true 101 "a" lost).1
restarted =
    next
      (next (next here (Step.claim true 5 "a" two) tt)
        (Step.sweep leases 100 "e" (claim_job true 5 "a" two).1) refl)
      (Step.claim true 101 "a" lost) tt

starts_twice : starts "a" restarted ≡ 2
unfolding claim_job reclaim_expired_leases update count select first
starts_twice = refl

starts_capped_example : attempts_of "a" two + starts "a" restarted ≤ 3
starts_capped_example = starts_capped 3 "a" (omega arith) two-IsKeyed two-IsCapped restarted

Step-Moves_example : Rows Moves table (mark_job_dispatched 7 "b" table)
Step-Moves_example = Step-Moves (Step.dispatch 7 "b" table)

reclaim_complete_example :
    let (r, u) = reclaim_expired_leases leases 100 "e" table in
    All (λ j. (is_silent leases 100 "e" j ≡ false) × (is_unheard leases 100 "e" j ≡ false)) u
    × (u ≡ map (swept leases 100 "e") table)
    × (r.failed
        ≡ count (λ j. is_silent leases 100 "e" j && leb leases.max_attempts j.attempts) table)
    × (r.failed + r.requeued_running ≡ count (is_silent leases 100 "e") table)
    × (r.requeued_dispatched ≡ count (is_unheard leases 100 "e") table)
reclaim_complete_example = reclaim_complete leases 100 "e" table

reclaim_test :
    (reclaim_expired_leases leases 100 "e" table).0
    ≡ record { failed = 1; requeued_running = 1; requeued_dispatched = 1 }
unfolding reclaim_expired_leases count update
reclaim_test = refl
