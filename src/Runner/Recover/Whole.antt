-- ===== src/Runner/Recover/Whole.antt =====
-- Which executions a resumption dispatches:
-- `resume_execution` and `_recover_plan` of reflowfy/reflow_manager/pipeline_runner.py.
use reflowfy.Prelude.{
  ℕ, zero, suc, ◌+◌, String, Bool, true, false, Option, none, some, leb, if◌then◌else◌, ◌≢◌, arith,
  ◌==◌, nat_eq, ◌≡◌, ◌⊎◌, ◌∙◌, ap, refl, inl, inr, Bool-cases, Option-cases,
}
use reflowfy.Jobs.Manager.{get_job_counts}
use mathlib.Core.Option
use reflowfy.Prelude.Sql.{update, count}
use reflowfy.Prelude.Keyed.{find, at_key, find-update_self}
use reflowfy.Executions.{
  Execution, ExecutionState, execution_state_eq, key, get_execution, update_execution_state,
  claim_driver, release_driver, is_false, may_drive, take_lease, set_state, drives, drop_lease,
}
use reflowfy.Executions
use reflowfy.Runner.{World, Counts}
use reflowfy.Runner.Settle.{is_unsuccessful}
use reflowfy.Runner.Recover.{
  Recovered, Recovery, Resumed, is_live, take_over, fail_plan, recover_plan,
}

abbrev none_left : Counts
none_left = record { dispatched = 0; completed = 0; failed = 0 }

-- The row of an execution whose plan is complete, or that is older than the column.
abbrev pub HasPlan : String → World → Type 0
HasPlan eid w =
    (e : Execution) × (get_execution eid w.executions ≡ some e) × (is_false e.plan_complete ≡ false)

abbrev pub state_at : String → Executions.Table → Option ExecutionState
state_at eid t = Option.map (λ e. e.state) (find key eid t)

-- A statement at the execution that leaves its state, or sets it.
state-kept :
    (q : Execution → Bool) (f : Execution → Execution)
    → ((e : Execution) → key (f e) ≡ key e)
    → ((e : Execution) → (f e).state ≡ e.state)
    → (eid : String) (t : Executions.Table)
    → state_at eid (update (at_key key eid q) f t) ≡ state_at eid t
state-kept q f same keeps eid t =
    rw (find-update_self key q f same eid t) (elim (Option-cases (find key eid t)) [
      | inl e ↦ rw e refl
      | inr e ↦
          rw (e.1)
            (elim (Bool-cases (q e.0)) [ inl h ↦ rw h (ap some (keeps e.0)) | inr h ↦ rw h refl ])
    ])

fail_plan-state :
    (r : Recovery) (eid : String) (now : ℕ) (w : World) (s : ExecutionState)
    → state_at eid w.executions ≡ some s
    → state_at eid (fail_plan r eid now w).executions ≡ some ExecutionState.failed
unfolding fail_plan update_execution_state release_driver
fail_plan-state r eid now w s h =
    let failed =
      set_state now ExecutionState.failed (some (r.message (get_job_counts eid w.jobs).total)) in
    state-kept (drives r.recovery_id) drop_lease (λ e. refl) (λ e. refl) eid _
    ∙ ap (Option.map (λ (e : Execution). e.state))
        (find-update_self key (λ _. true) failed (λ e. refl) eid w.executions)
    ∙ elim (Option-cases (find key eid w.executions)) [
      | inl e ↦ let gone = rw e at h in cc gone
      | inr e ↦ rw (e.1) refl
    ]

take_over-state :
    (r : Recovery) (eid : String) (now : ℕ) (e : Execution) (t : Executions.Table)
    → state_at eid (take_over r eid now e t).1 ≡ state_at eid t
unfolding take_over claim_driver
take_over-state r eid now e t = elim (Bool-cases (leb (e.created_at + r.lease) now)) [
  | inl h ↦ rw h (
      state-kept (may_drive now r.lease r.recovery_id) (take_lease now r.recovery_id) (λ x. refl)
        (λ x. refl) eid t)
  | inr h ↦ rw h refl
]

-- The states in which an execution has ended.
abbrev pub has_ended : ExecutionState → Bool
has_ended ExecutionState.completed = true
has_ended ExecutionState.failed = true
has_ended ExecutionState.cancelled = true
has_ended ExecutionState.pending = false
has_ended ExecutionState.running = false
has_ended ExecutionState.paused = false

-- The execution is gone, or it is neither pending nor running.
abbrev pub IsOver : String → World → Type 0
IsOver eid w =
    (get_execution eid w.executions ≡ none)
    ⊎ ((e : Execution) × (get_execution eid w.executions ≡ some e)
        × (e.state ≢ ExecutionState.pending)
        × (e.state ≢ ExecutionState.running))

not_live :
    (s : ExecutionState)
    → is_live s ≡ false
    → (s ≢ ExecutionState.pending) × (s ≢ ExecutionState.running)
not_live s h = ((λ e. ground (arith, e)), (λ e. ground (arith, e)))

abbrev pub unfinished : String → World → ℕ
unfinished eid w = let c = get_job_counts eid w.jobs in c.pending + c.dispatched + c.running

module _ (r : Recovery) (eid : String) where
  abbrev pub IsWhole : Recovered → Type 0
  IsWhole (Recovered.whole w) = HasPlan eid w
  IsWhole (Recovered.failed w) = state_at eid w.executions ≡ some ExecutionState.failed
  IsWhole (Recovered.over w) = IsOver eid w
  IsWhole (Recovered.waiting w) = Unit

  pub recover-IsWhole : (fuel round : ℕ) (w : World) → IsWhole (recover_plan r eid fuel round w)
  unfolding recover_plan
  recover-IsWhole zero round w = tt
  recover-IsWhole (suc fuel) round w = elim (Option-cases (get_execution eid w.executions)) [
    | inl e ↦ simp (e, recover_plan) (inl refl)
    | inr e ↦ elim (Bool-cases (is_live e.0.state)) [
      | inr l ↦
          simp (e.1, l, recover_plan)
            (inr (e.0, refl, (not_live e.0.state l).0, (not_live e.0.state l).1))
      | inl l ↦ elim (Bool-cases (is_false e.0.plan_complete)) [
        | inr p ↦ simp (e.1, l, p, recover_plan) (e.0, refl, p)
        | inl p ↦
            let (claimed, executions) = take_over r eid (r.clock round) e.0 w.executions in
            let u : World = record w { executions = executions } in
            elim (Bool-cases claimed) [
              | inl c ↦
                  simp (e.1, l, p, c, recover_plan)
                    (fail_plan-state r eid (r.clock round) u e.0.state (
                      take_over-state r eid (r.clock round) e.0 w.executions
                      ∙ ap (Option.map (λ (x : Execution). x.state)) e.1))
              | inr c ↦
                  simp (e.1, l, p, c, recover_plan)
                    (recover-IsWhole fuel (suc round) (r.env round u))
            ]
      ]
    ]
  ]

  -- What follows where the execution has not ended and its pipeline is there. Where the plan is whole in
  -- a world `v`, the execution is driven if jobs are unfinished there, and else it gets its final state.
  abbrev pub Continues : Resumed → Type 0
  Continues (Resumed.skipped u) = ⊥
  Continues (Resumed.pipeline_missing u) = ⊥
  Continues (Resumed.abandoned (Recovered.whole u)) = ⊥
  Continues (Resumed.abandoned (Recovered.over u)) = IsOver eid u
  Continues (Resumed.abandoned (Recovered.failed u)) =
      state_at eid u.executions ≡ some ExecutionState.failed
  Continues (Resumed.abandoned (Recovered.waiting u)) = Unit
  Continues (Resumed.settled u) =
      (v : World) × HasPlan eid v
      × (unfinished eid v ≡ 0)
      × (state_at eid u.executions
          ≡ some (
              if count (is_unsuccessful eid) v.jobs == 0
              then ExecutionState.completed
              else ExecutionState.failed))
  Continues (Resumed.drives rate u) =
      (v : World) × HasPlan eid v × (unfinished eid v ≢ 0) × (u.executions ≡ v.executions)

  abbrev pub Goes : (pipeline : Option (Option ℕ)) → Resumed → Type 0
  Goes none result =
      (u : World) × (result ≡ Resumed.pipeline_missing u)
      × (state_at eid u.executions ≡ some ExecutionState.failed)
  Goes (some class_rate) result = Continues result

  abbrev pub Resumes : World → (pipeline : Option (Option ℕ)) → Resumed → Type 0
  Resumes w pipeline result =
      ((get_execution eid w.executions ≡ none) × (result ≡ Resumed.skipped w))
      ⊎ ((e : Execution) × (get_execution eid w.executions ≡ some e)
          × (((has_ended e.state ≡ true) × (result ≡ Resumed.skipped w))
              ⊎ ((has_ended e.state ≡ false) × Goes pipeline result)))
