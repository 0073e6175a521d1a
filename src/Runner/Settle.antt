-- ===== src/Runner/Settle.antt =====
-- How an execution is settled: `_finalize_execution_state` and `_sync_counts_from_db` of
-- reflowfy/reflow_manager/pipeline_runner.py.
use reflowfy.Prelude.{
  ℕ, ◌+◌, String, Bool, true, not, ◌&&◌, ◌||◌, none, some, [], ◌∷◌, if◌then◌else◌, ◌==◌, nat_eq,
  string_eq, ◌≡◌, refl, ap, ◌∙◌, arith, length,
}
use mathlib.Core.Option
use reflowfy.Prelude.Sql.{count, select}
use reflowfy.Prelude.Keyed.{find, find-update_self}
use reflowfy.Jobs.{Job, JobState, state_eq}
use reflowfy.Jobs.Manager.{get_job_counts, JobCounts}
use reflowfy.Jobs.Manager
use reflowfy.Jobs.Counts.{get_job_counts_total}
use reflowfy.Executions.{
  Execution, ExecutionState, key, get_execution, update_execution_state, set_state,
}
use reflowfy.Runner.{
  World, Counts, set_counts, final_state_of, sync_counts_from_db, finalize_execution_state,
}

-- A job of the execution that has not completed and was no duplicate.
abbrev pub is_unsuccessful : String → Job → Bool
is_unsuccessful eid j =
    j.execution_id == eid && not (j.state == JobState.completed || j.state == JobState.deduplicated)

unsuccessful_rows :
    (eid : String) (t : Manager.Table)
    → let rows = select (λ j. j.execution_id == eid) t in
      count (is_unsuccessful eid) t
        + count (λ j. j.state == JobState.completed) rows
        + count (λ j. j.state == JobState.deduplicated) rows
      ≡ length rows
unfolding count select
unsuccessful_rows eid [] = refl
unsuccessful_rows eid (j ∷ t) = ground (arith, unsuccessful_rows eid t)

unsuccessful_counts :
    (eid : String) (t : Manager.Table)
    → let c = get_job_counts eid t in
      count (is_unsuccessful eid) t + c.completed + c.deduplicated ≡ c.total
unfolding get_job_counts
unsuccessful_counts = unsuccessful_rows

settled :
    (bad p d r c f u x total : ℕ)
    → bad + c + u ≡ total
    → total ≡ p + d + r + c + f + u + x
    → final_state_of (c + f + u) total f
      ≡ (if bad == 0 then ExecutionState.completed else ExecutionState.failed)
settled bad p d r c f u x total h k = ground arith

-- Where the counting does not fail and the execution has a row, an execution that is settled on the
-- number of its jobs is completed if all its jobs have completed or were duplicates, and failed if
-- there is any other; its counts are written with its state.
pub finalize_execution_state_correct :
    (now : ℕ) (eid : String) (fallback : Counts) (w : World) (e : Execution)
    → find key eid w.executions ≡ some e
    → let c = get_job_counts eid w.jobs in
      let r = finalize_execution_state true now eid c.total fallback w in
      get_execution eid r.1.executions
      ≡ some (
          set_state now
            (if count (is_unsuccessful eid) w.jobs == 0
              then ExecutionState.completed
              else ExecutionState.failed)
            none
            (set_counts c e))
unfolding finalize_execution_state sync_counts_from_db update_execution_state
finalize_execution_state_correct now eid fallback w e h =
    let c = get_job_counts eid w.jobs in
    let s = final_state_of (c.completed + c.failed + c.deduplicated) c.total c.failed in
    find-update_self key (λ _. true) (set_state now s none) (λ x. refl) eid _
    ∙ ap (Option.map (set_state now s none)) (
        find-update_self key (λ _. true) (set_counts c) (λ x. refl) eid w.executions
        ∙ ap (Option.map (set_counts c)) h)
    ∙ ap (λ st. some (set_state now st none (set_counts c e)))
        (settled (count (is_unsuccessful eid) w.jobs) c.pending c.dispatched c.running c.completed
          c.failed c.deduplicated c.cancelled c.total (unsuccessful_counts eid w.jobs)
          (get_job_counts_total eid w.jobs))
