-- ===== src/Runner/Recover.antt =====
-- The resumption of an interrupted execution: `resume_execution` and `_recover_plan` of
-- PipelineRunner in reflowfy/reflow_manager/pipeline_runner.py. `env` is the rest of the world while a
-- round sleeps, `clock` what a round reads from the clock; the drive loop that follows is not entered
-- here. Times are microseconds.
pub mod Whole
pub mod Ends
mod Examples
use reflowfy.Prelude.{
  ℕ, zero, suc, ◌+◌, String, Bool, true, false, not, ◌||◌, Option, none, some, List, if◌then◌else◌,
  leb, ◌==◌, nat_eq,
}
use reflowfy.Jobs.Manager.{get_job_counts, requeue_orphans}
use reflowfy.Executions.{
  Execution, ExecutionState, execution_state_eq, is_terminal, get_execution, update_execution_state,
  claim_driver, release_driver, is_false,
}
use reflowfy.Executions
use reflowfy.Runner.{World, Counts, finalize_execution_state}

-- `whole` is True: the plan is complete. The others are False: `over` is settled elsewhere, `failed`
-- here. `waiting` is the loop out of rounds.
pub data Recovered : Type 0 where
  whole : World → Recovered
  over : World → Recovered
  failed : World → Recovered
  waiting : World → Recovered

abbrev pub is_live : ExecutionState → Bool
is_live s = s == ExecutionState.pending || s == ExecutionState.running

pub record Recovery : Type 0 where
  pub env : ℕ → World → World
  pub clock : ℕ → ℕ
  pub lease : ℕ
  pub recovery_id : String
  -- of the number of saved jobs
  pub message : ℕ → String

-- `drives` enters the drive loop at a rate; `abandoned` is the end of a recovery that is not `whole`.
pub data Resumed : Type 0 where
  skipped : World → Resumed
  pipeline_missing : World → Resumed
  abandoned : Recovered → Resumed
  settled : World → Resumed
  drives : (rate : Option ℕ) → World → Resumed

abbrev or_rate : Option ℕ → Option ℕ → Option ℕ
or_rate none rate = rate
or_rate (some n) rate = some n

-- `if pipeline.rate_limit`: a rate of zero is none.
abbrev nonzero : Option ℕ → Option ℕ
nonzero none = none
nonzero (some n) = if n == 0 then none else some n

abbrev pub effective_rate : (override stored class_rate : Option ℕ) → Option ℕ
effective_rate override stored class_rate = or_rate override (or_rate stored (nonzero class_rate))

module _ (r : Recovery) (eid : String) where
  -- The lease of an execution that is old enough.
  unfoldable pub take_over : ℕ → Execution → Executions.Table → Bool × Executions.Table
  take_over now e executions =
      if leb (e.created_at + r.lease) now
      then claim_driver now eid r.recovery_id r.lease executions
      else (false, executions)

  unfoldable pub fail_plan : ℕ → World → World
  fail_plan now w =
      let saved = (get_job_counts eid w.jobs).total in
      let failed =
        update_execution_state now eid ExecutionState.failed (some (r.message saved))
          w.executions in
      record w { executions = release_driver eid r.recovery_id failed.1 }

  unfoldable pub recover_plan : (fuel round : ℕ) → World → Recovered
  recover_plan zero round w = Recovered.waiting w
  recover_plan (suc fuel) round w = elim (get_execution eid w.executions) [
    | none ↦ Recovered.over w
    | some e ↦ elim (is_live e.state) [
      | false ↦ Recovered.over w
      | true ↦ elim (is_false e.plan_complete) [
        | false ↦ Recovered.whole w
        | true ↦
            let (claimed, executions) = take_over (r.clock round) e w.executions in
            let u = record w { executions = executions } in
            elim claimed [
              | true ↦ Recovered.failed (fail_plan (r.clock round) u)
              | false ↦ recover_plan fuel (suc round) (r.env round u)
            ]
      ]
    ]
  ]

  -- The rest of a resumption, with a plan that is whole.
  unfoldable pub resume_jobs :
      (now : ℕ) (local : Bool) (override stored class_rate : Option ℕ) → World → Resumed
  resume_jobs now local override stored class_rate w =
      let c = get_job_counts eid w.jobs in
      let unfinished = c.pending + c.dispatched + c.running in
      let none_left : Counts = record { dispatched = 0; completed = 0; failed = 0 } in
      if unfinished == 0
      then Resumed.settled (finalize_execution_state true now eid c.total none_left w).1
      else Resumed.drives (effective_rate override stored class_rate)
          (if local then record w { jobs = (requeue_orphans now eid w.jobs).1 } else w)

  -- `pipeline` is the registry's answer: the class's rate of the pipeline, or none without it.
  unfoldable pub resume_execution :
      (fuel now : ℕ)
      → (missing_message : String) → (local : Bool) → (pipeline : Option (Option ℕ))
      → (override : Option ℕ) → World
      → Resumed
  resume_execution fuel now missing_message local pipeline override w =
      elim (get_execution eid w.executions) [
        | none ↦ Resumed.skipped w
        | some e ↦ elim (is_terminal e.state) [
          | true ↦ Resumed.skipped w
          | false ↦ elim pipeline [
            | none ↦ Resumed.pipeline_missing (record w {
              executions =
                  (update_execution_state now eid ExecutionState.failed (some missing_message)
                    w.executions).1;
            })
            | some class_rate ↦ elim (is_false e.plan_complete) [
              | false ↦ resume_jobs now local override e.rate_limit class_rate w
              | true ↦ elim (recover_plan fuel 0 w) [
                | whole u ↦
                    resume_jobs now local override
                      (elim (get_execution eid u.executions) [
                        | none ↦ e.rate_limit
                        | some refreshed ↦ refreshed.rate_limit
                      ])
                      class_rate u
                | other ↦ Resumed.abandoned other
              ]
            ]
          ]
        ]
      ]
