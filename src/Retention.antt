-- ===== src/Retention.antt =====
-- The retention of executions: `purge_expired_executions` of
-- reflowfy/reflow_manager/content_dedup_scheduler.py over the jobs and the executions.
pub mod Kept
mod Examples
use reflowfy.Prelude.{
  ℕ, ◌+◌, ◌*◌, ◌≤◌, String, Bool, true, false, Option, none, some, List, [], ◌∷◌, map,
  if◌then◌else◌, ◌==◌, nat_eq, string_eq, ltb, mem,
}
use reflowfy.Prelude.Sql.{select, delete, count}
use reflowfy.Jobs.{Job}
use reflowfy.Executions.{Execution}
use reflowfy.Executions
use reflowfy.Runner.{World}

-- WHERE completed_at < now - retention: never for NULL.
abbrev is_past : ℕ → ℕ → Option ℕ → Bool
is_past retention now none = false
is_past retention now (some t) = ltb (t + retention) now

abbrev pub hours : ℕ → ℕ
hours n = n * 3600000000

abbrev pub is_expired : (retention_hours now : ℕ) → Execution → Bool
is_expired retention_hours now e = is_past (hours retention_hours) now e.completed_at

abbrev pub expired_ids : (retention_hours now : ℕ) → Executions.Table → List String
expired_ids retention_hours now t = map Executions.key (select (is_expired retention_hours now) t)

-- How many executions are deleted, and the tables.
unfoldable pub purge_expired_executions : (retention_hours now : ℕ) → World → ℕ × World
purge_expired_executions retention_hours now w =
    if retention_hours == 0
    then (0, w)
    else let expired = expired_ids retention_hours now w.executions in
      (
        count (λ e. mem (Executions.key e) expired) w.executions,
        record {
          executions = delete (λ e. mem (Executions.key e) expired) w.executions;
          jobs = delete (λ j. mem j.execution_id expired) w.jobs;
        },
      )
