-- ===== src/Runner.antt =====
-- PipelineRunner of reflowfy/reflow_manager/pipeline_runner.py over the two tables: the planning of an
-- execution, and the pass of the drive loop that counts, sends and settles. Times are microseconds.
pub mod Rows
pub mod Plan
pub mod Settle
pub mod Flight
pub mod Window
pub mod Recover
mod Examples
use reflowfy.Prelude.{
  ℕ, ◌+◌, String, Bool, true, false, Option, none, some, List, [], ◌∷◌, ◌++◌, if◌then◌else◌, leb,
  length, map, ◌==◌, nat_eq, ◌-◌, not, ◌&&◌, ◌||◌, ltb, min,
}
use reflowfy.Json.{Json}
use reflowfy.Prelude.Sql.{update}
use reflowfy.Jobs.{Job, JobState}
use reflowfy.Jobs.Manager.{
  JobRow, create_jobs, cancel_unstarted_jobs, JobCounts, get_job_counts, mark_job_dispatched,
  update_job_state, get_pending_jobs, reclaim_expired_leases, Leases,
}
use reflowfy.Jobs.Manager
use reflowfy.Executions.{
  Execution, ExecutionState, execution_state_eq, of_id, get_execution, update_execution_state,
  heartbeat_driver,
}
use reflowfy.Executions
use reflowfy.Dispatch.{Port, dispatch_jobs_batch}
use mathlib.Core.Option

-- A slice of the plan: the id that is drawn for its job, the payload that is built for it in a batch,
-- and whether the state of the execution is looked up before it and is cancelled or failed.
pub record Slice : Type 0 where
  pub job_id : String
  pub payload : ℕ → Json
  pub aborted : Bool

-- `db_error` is the IntegrityError of an INSERT.
pub data Planned : Type 0 where
  saved : (job_count batch_number : ℕ) → Manager.Table → Planned
  aborted : (cancelled : ℕ) → Manager.Table → Planned
  db_error : Planned

abbrev pub job_row : String → ℕ → Slice → JobRow
job_row eid batch s = record {
  execution_id = eid;
  job_id = s.job_id;
  job_payload = s.payload batch;
  batch_number = batch;
}

-- The loop of _plan_and_dispatch that saves the jobs; `rows` waits to be saved.
unfoldable pub plan_loop :
    String → ℕ → ℕ → List Slice → ℕ → List JobRow → ℕ → Manager.Table → Planned
plan_loop eid size now [] batch rows n t = elim (create_jobs now rows t) [
  | none ↦ Planned.db_error
  | some u ↦ Planned.saved n batch u
]
plan_loop eid size now (s ∷ slices) batch rows n t =
    let rows' = rows ++ job_row eid batch s ∷ [] in
    let buffered = plan_loop eid size now slices batch rows' (n + 1) t in
    let flushed : Planned = elim (create_jobs now rows' t) [
      | none ↦ Planned.db_error
      | some u ↦ plan_loop eid size now slices (batch + 1) [] (n + 1) u
    ] in
    let stopped = cancel_unstarted_jobs now eid t in
    if s.aborted
    then Planned.aborted stopped.0 stopped.1
    else if leb size (length rows')
    then flushed
    else buffered

unfoldable pub plan_jobs : String → ℕ → ℕ → List Slice → Manager.Table → Planned
unfolding plan_loop
plan_jobs eid size now slices t = plan_loop eid size now slices 1 [] 0 t

-- The two tables.
pub record World : Type 0 where
  pub executions : Executions.Table
  pub jobs : Manager.Table

abbrev pub finished_count : ℕ → ℕ → ℕ → ℕ
finished_count completed failed deduplicated = completed + failed + deduplicated

-- Jobs dispatched, completed and failed.
pub record Counts : Type 0 where
  pub dispatched : ℕ
  pub completed : ℕ
  pub failed : ℕ

abbrev pub counts_of : JobCounts → Counts
counts_of c = record {
  dispatched = c.dispatched + c.running + c.completed + c.failed + c.deduplicated;
  completed = c.completed + c.deduplicated;
  failed = c.failed;
}

abbrev pub set_counts : JobCounts → Execution → Execution
set_counts c e = record e {
  jobs_dispatched = (counts_of c).dispatched;
  jobs_completed = (counts_of c).completed;
  jobs_failed = c.failed;
  deduplicated_jobs = c.deduplicated;
}

unfoldable pub sync_counts_from_db : String → World → Counts × World
sync_counts_from_db eid w =
    let c = get_job_counts eid w.jobs in
    (counts_of c, record w { executions = update (of_id eid) (set_counts c) w.executions })

abbrev pub final_state_of : ℕ → ℕ → ℕ → ExecutionState
final_state_of finished expected failed =
    if finished == expected
    then if failed == 0 then ExecutionState.completed else ExecutionState.failed
    else ExecutionState.failed

-- `counted` is false where the counting raised, and the fallback is used.
unfoldable pub finalize_execution_state : Bool → ℕ → String → ℕ → Counts → World → Counts × World
unfolding sync_counts_from_db
finalize_execution_state counted now eid expected fallback w =
    let (synced, w1) = sync_counts_from_db eid w in
    let c = get_job_counts eid w1.jobs in
    let of_jobs =
      final_state_of (finished_count c.completed c.failed c.deduplicated) expected synced.failed in
    let of_fallback =
      final_state_of (fallback.completed + fallback.failed) expected fallback.failed in
    if counted
    then (
      synced,
      record w1 { executions = (update_execution_state now eid of_jobs none w1.executions).1 },
    )
    else (
      fallback,
      record w { executions = (update_execution_state now eid of_fallback none w.executions).1 },
    )

unfoldable pub set_total_jobs : String → ℕ → World → World
set_total_jobs eid total w = record w {
  executions = update (of_id eid) (λ e. record e { total_jobs = total }) w.executions;
}

-- The callbacks of _send_jobs. `env` is the rest of the world while the jobs are sent: Kafka, the
-- tokens, the looks at the execution, and whatever workers do to the tables in that time.
abbrev pub sender : Port Job World → ℕ → String → Port Job World
sender env now reason = record env {
  on_sent = λ j w. record w { jobs = mark_job_dispatched now j.job_id w.jobs };
  has_on_unsendable = true;
  on_unsendable = λ j w. record w {
    jobs = (update_job_state now j.job_id JobState.failed none (some reason) none w.jobs).1;
  };
}

unfoldable pub send_jobs : Port Job World → ℕ → String → List Job → World → ℕ × World
send_jobs env now reason jobs w = dispatch_jobs_batch (sender env now reason) jobs w

-- MAX_IN_FLIGHT_JOBS, DISPATCH_FETCH_LIMIT, LEASE_CHECK_INTERVAL and the leases.
pub record Limits : Type 0 where
  pub max_in_flight : ℕ
  pub fetch_limit : ℕ
  pub check_interval : ℕ
  pub leases : Leases

abbrev is_running : Option ExecutionState → Bool
is_running none = false
is_running (some s) = s == ExecutionState.running

-- The sweep of the leases, where it is due: the time of the last one, and the tables.
unfoldable pub sweep_if_due : Limits → ℕ → String → ℕ → World → ℕ × World
sweep_if_due l now eid checked w =
    if leb l.check_interval (now - checked)
    then (now, record w { jobs = (reclaim_expired_leases l.leases now eid w.jobs).1 })
    else (checked, w)

-- The rest of a pass: settle the execution, fill the window, or wait.
unfoldable pub settle_or_send :
    Limits → Port Job World → ℕ → String → String → World → Option Counts × World
unfolding sync_counts_from_db finalize_execution_state send_jobs
settle_or_send l env now reason eid w =
    let c = get_job_counts eid w.jobs in
    let in_flight = c.dispatched + c.running in
    let (synced, w_synced) = sync_counts_from_db eid w in
    let (final, w_final) = finalize_execution_state true now eid c.total synced w_synced in
    let free_slots = l.max_in_flight - in_flight in
    let jobs = get_pending_jobs eid (min free_slots l.fetch_limit) w.jobs in
    let w_sent = (sync_counts_from_db eid (send_jobs env now reason jobs w).1).1 in
    if c.pending == 0 && in_flight == 0
    then (some final, w_final)
    else if not (c.pending == 0) && ltb 0 free_slots
    then (none, w_sent)
    else (none, w)

-- One pass of the drive loop: the final counts where the loop ends, the time of the last sweep, and
-- the tables. One clock stands for the reads of the clock in a pass, and what only feeds the warning
-- of a stall is left out.
unfoldable pub drive_step :
    Limits → Port Job World → ℕ → String → String → String → ℕ → World → Option Counts × ℕ × World
unfolding sync_counts_from_db sweep_if_due settle_or_send
drive_step l env now reason eid driver checked w =
    let (alive, executions) = heartbeat_driver now eid driver w.executions in
    let w1 = record w { executions = executions } in
    let (synced, w_synced) = sync_counts_from_db eid w1 in
    let state = Option.map (λ e. e.state) (get_execution eid executions) in
    let (checked', w2) = sweep_if_due l now eid checked w1 in
    let (result, w3) = settle_or_send l env now reason eid w2 in
    if not alive || not (is_running state)
    then (some synced, checked, w_synced)
    else (result, checked', w3)
