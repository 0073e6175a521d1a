-- ===== src/Schedules.antt =====
-- The cron schedules of pipelines: PipelineScheduler of
-- reflowfy/reflow_manager/pipeline_scheduler.py over the tables of schedules and executions. The next
-- time of a cron expression is croniter's and a parameter; the columns created_at and updated_at are
-- left out, and so is the thread that polls. The jobs of an execution run in a thread of their own.
pub mod Due
pub mod Sync
mod Examples
use reflowfy.Prelude.{
  ℕ, String, Bool, true, false, not, ◌&&◌, Option, none, some, List, [], ◌∷◌, ◌++◌, leb,
  if◌then◌else◌, ◌==◌, string_eq,
}
use reflowfy.Prelude.Sql.{update, any}
use reflowfy.Json.{Json}
use reflowfy.Executions.{create_execution}
use reflowfy.Executions

pub record PipelineSchedule : Type 0 where
  pub pipeline_name : String
  pub schedule_name : String
  pub cron_expression : String
  pub runtime_params : Json
  pub next_run_at : ℕ
  pub last_triggered_at : Option ℕ
  pub last_execution_id : Option String
  pub enabled : Bool

abbrev pub Table : Type 0
Table = List PipelineSchedule

abbrev pub is_due : ℕ → PipelineSchedule → Bool
is_due now s = s.enabled && leb s.next_run_at now

-- What happens at the trigger of one schedule: the id that is drawn, whether there is a factory of
-- runners, whether the session that creates the execution works, and whether the thread starts.
pub record Trigger : Type 0 where
  pub execution_id : String
  pub configured : Bool
  pub reachable : Bool
  pub started : Bool

-- A poll has the schedules that other sessions have locked.
pub record Poll : Type 0 where
  pub now : ℕ
  pub locked : PipelineSchedule → Bool
  pub trigger : PipelineSchedule → Trigger

abbrev pub fires : Poll → PipelineSchedule → Bool
fires p s = is_due p.now s && not (p.locked s)

-- `_create_execution` and `_dispatch_async`: whether both have succeeded, and the executions.
unfoldable pub start_execution :
    ℕ → Trigger → PipelineSchedule → Executions.Table → Bool × Executions.Table
start_execution now g s executions =
    if g.configured && g.reachable
    then elim (create_execution now g.execution_id s.pipeline_name s.runtime_params none
        executions) [ none ↦ (false, executions) | some created ↦ (g.started, created) ]
    else (false, executions)

-- A schedule as a run declares it.
pub record ScheduledRun : Type 0 where
  pub pipeline_name : String
  pub name : String
  pub cron : String
  pub params : Json

abbrev pub is_named : String → String → PipelineSchedule → Bool
is_named pipeline name s = s.pipeline_name == pipeline && s.schedule_name == name

abbrev pub is_run : String → String → ScheduledRun → Bool
is_run pipeline name r = r.pipeline_name == pipeline && r.name == name

-- A row whose schedule no run of the registry declares.
abbrev pub is_undeclared : List ScheduledRun → PipelineSchedule → Bool
is_undeclared runs s = not (any (is_run s.pipeline_name s.schedule_name) runs)

module _ (compute_next_run : String → ℕ → ℕ) where
  abbrev pub advance : ℕ → Option String → PipelineSchedule → PipelineSchedule
  advance now started s = record s {
    last_execution_id = elim started [ none ↦ s.last_execution_id | some id ↦ some id ];
    last_triggered_at = some now;
    next_run_at = compute_next_run s.cron_expression now;
  }

  -- The schedule and the executions after the trigger.
  unfoldable pub trigger_pipeline :
      ℕ → Trigger → PipelineSchedule → Executions.Table → PipelineSchedule × Executions.Table
  trigger_pipeline now g s executions =
      let (started, created) = start_execution now g s executions in
      (advance now (if started then some g.execution_id else none) s, created)

  -- The due schedules in turn.
  unfoldable pub trigger_due : Poll → Table → Executions.Table → Table × Executions.Table
  trigger_due p [] executions = ([], executions)
  trigger_due p (s ∷ t) executions =
      let fired = trigger_pipeline p.now (p.trigger s) s executions in
      let first = if fires p s then fired else (s, executions) in
      let rest = trigger_due p t (first.1) in (first.0 ∷ rest.0, rest.1)

  -- A commit that fails rolls the schedules back; the executions are committed by then.
  unfoldable pub poll_and_trigger :
      Poll → (committed : Bool) → Table → Executions.Table → Table × Executions.Table
  poll_and_trigger p committed t executions =
      let after = trigger_due p t executions in if committed then after else (t, after.1)

  -- After a manual trigger of a pipeline.
  unfoldable pub reset_schedule : String → ℕ → Table → Table
  reset_schedule pipeline triggered_at =
      update (λ s. s.pipeline_name == pipeline && s.enabled)
        (λ s. record s {
          last_triggered_at = some triggered_at;
          next_run_at = compute_next_run s.cron_expression triggered_at;
        })

  abbrev pub new_schedule : ℕ → ScheduledRun → PipelineSchedule
  new_schedule now r = record {
    pipeline_name = r.pipeline_name;
    schedule_name = r.name;
    cron_expression = r.cron;
    runtime_params = r.params;
    next_run_at = compute_next_run r.cron now;
    last_triggered_at = none;
    last_execution_id = none;
    enabled = true;
  }

  -- `same` is Python's `==` of two dicts.
  module _ (same : Json → Json → Bool) where
    abbrev pub refresh : ℕ → ScheduledRun → PipelineSchedule → PipelineSchedule
    refresh now r s = record s {
      enabled = true;
      cron_expression = r.cron;
      next_run_at =
          if s.cron_expression == r.cron then s.next_run_at else compute_next_run r.cron now;
      runtime_params = if same s.runtime_params r.params then s.runtime_params else r.params;
    }

    -- The row of one declared run.
    unfoldable pub sync_run : ℕ → ScheduledRun → Table → Table
    sync_run now r t =
        if any (is_named r.pipeline_name r.name) t
        then update (is_named r.pipeline_name r.name) (refresh now r) t
        else t ++ new_schedule now r ∷ []

    unfoldable pub sync_runs : ℕ → List ScheduledRun → Table → Table
    sync_runs now [] t = t
    sync_runs now (r ∷ runs) t = sync_runs now runs (sync_run now r t)

    -- Of the rows that no run declares, only those that are enabled are written.
    unfoldable pub sync_schedules_from_registry : ℕ → List ScheduledRun → Table → Table
    sync_schedules_from_registry now runs t =
        update (λ s. s.enabled && is_undeclared runs s) (λ s. record s { enabled = false })
          (sync_runs now runs t)
