-- ===== src/Runner/Examples.antt =====
-- A plan of five jobs in batches of two, a small world, and the theorems of Runner at them.
use reflowfy.Prelude.{
  ℕ, ◌+◌, ◌*◌, ◌≤◌, ◌<◌, max, String, true, false, none, some, List, [], ◌∷◌, map, ◌≡◌, refl, arith,
  chunks, ◌==◌, nat_eq, if◌then◌else◌, string_eq,
}
use text.Mathlib.TextEquality.{eq_iff}
use reflowfy.Prelude.Sql.{count}
use reflowfy.Prelude.Keyed.{find, IsKeyed}
use reflowfy.Json.{Json, empty_object}
use reflowfy.Jobs.{Job, JobState}
use reflowfy.Jobs.Manager.{new_job, get_job_counts}
use reflowfy.Executions.{Execution, ExecutionState, new_execution, get_execution, set_state}
use reflowfy.Executions
use reflowfy.Dispatch.{Port, Sent}
use reflowfy.Runner.{
  Slice, Planned, job_row, plan_jobs, World, Counts, set_counts, finalize_execution_state, Limits,
  drive_step,
}
use reflowfy.Runner.Rows.{planned_job, numbered}
use reflowfy.Runner.Plan.{plan_jobs_saved}
use reflowfy.Runner.Settle.{is_unsuccessful, finalize_execution_state_correct}
use reflowfy.Runner.Flight.{key, in_flight}
use reflowfy.Runner.Window.{drive_step-in_flight}

abbrev slice : String → Slice
slice id = record { job_id = id; payload = λ batch. Json.num batch; aborted = false }

abbrev slices : List Slice
slices = slice "a" ∷ slice "b" ∷ slice "c" ∷ slice "d" ∷ []

-- Four jobs in batches of two: there are two batches, and three are reported.
plan_jobs_saved_example :
    (k : ℕ) × (plan_jobs "e" 2 5 slices []
      ≡ Planned.saved 4 (1 + k) (map (planned_job 5) (numbered "e" 1 (chunks 2 slices))))
    × (k * 2 ≤ 4)
    × (4 < k * 2 + 2)
plan_jobs_saved_example =
    plan_jobs_saved "e" 2 5 slices [] (omega arith) (refl, (refl, (refl, (refl, tt))))
      (refl, (refl, (refl, (refl, tt))))

abbrev job : String → JobState → Job
job id state = record (new_job 5 (job_row "e" 1 (slice id))) { state = state }

abbrev world : World
world = record {
  executions = new_execution 1 "e" "p" empty_object none ∷ [];
  jobs = job "a" JobState.running ∷ job "b" JobState.pending ∷ job "c" JobState.completed ∷ [];
}

found : find Executions.key "e" world.executions ≡ some (new_execution 1 "e" "p" empty_object none)
unfolding find
found = refl

abbrev no_counts : Counts
no_counts = record { dispatched = 0; completed = 0; failed = 0 }

finalize_execution_state_correct_example :
    get_execution "e"
      (finalize_execution_state true 9 "e"
        (get_job_counts "e" world.jobs).total
        no_counts
        world).1.executions
    ≡ some (
        set_state 9
          (if count (is_unsuccessful "e") world.jobs == 0
            then ExecutionState.completed
            else ExecutionState.failed)
          none
          (set_counts (get_job_counts "e" world.jobs) (new_execution 1 "e" "p" empty_object none)))
finalize_execution_state_correct_example =
    finalize_execution_state_correct 9 "e" no_counts world
      (new_execution 1 "e" "p" empty_object none) found

-- Kafka takes every message and there is always a token; nobody else is there.
abbrev alone : Port Job World
alone = record {
  should_stop = λ c w. (false, w);
  acquire = λ w. (true, w);
  send = λ j w. (Sent.sent, w);
  on_sent = λ j w. w;
  has_on_unsendable = true;
  on_unsendable = λ j w. w;
}

abbrev limits : Limits
limits = record {
  max_in_flight = 2;
  fetch_limit = 500;
  check_interval = 60000000;
  leases = record {
    running_lease = 300000000;
    dispatch_lease = 3600000000;
    max_attempts = 3;
    lost = "lost";
  };
}

apart : IsKeyed key world.jobs
apart = (
  (λ e. cc ((eq_iff "b" "a").1 e), ((λ e. cc ((eq_iff "c" "a").1 e)), tt)),
  (((λ e. cc ((eq_iff "c" "b").1 e)), tt), (tt, tt)),
)

drive_step-in_flight_example :
    in_flight "e" (drive_step limits alone 10 "too large" "e" "d" 0 world).2
    ≤ max 2 (in_flight "e" world)
drive_step-in_flight_example =
    drive_step-in_flight "e" alone (λ c w k. (omega arith, k)) (λ w k. (omega arith, k))
      (λ j w k. (omega arith, k)) limits 10 "too large" "d" 0 world apart
