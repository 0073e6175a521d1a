-- ===== src/Schedules/Due.antt =====
-- What a poll fires: `_poll_and_trigger` of reflowfy/reflow_manager/pipeline_scheduler.py.
use reflowfy.Prelude.{
  ℕ, ◌<◌, ◌≤◌, if◌then◌else◌, String, Bool, true, false, ◌&&◌, Option, none, some, List, [], ◌∷◌,
  ◌++◌, string_eq, ◌≡◌, ◌≢◌, refl, sym, ap, ◌∙◌, arith, inl, inr, ◌⊎◌, Bool-cases, Option-cases,
  All, map, length, length-append,
}
use mathlib.Core.List.{append-nil, append_assoc}
use reflowfy.Prelude.Sql.{update, select, count, Rows, All-update_cases}
use reflowfy.Prelude.Keyed.{find, find-append_ne}
use reflowfy.Executions.{
  Execution, ExecutionState, or_empty, new_execution, create_execution, key, get_execution,
}
use reflowfy.Executions
use reflowfy.Schedules.{
  PipelineSchedule, Table, Trigger, Poll, fires, start_execution, advance, trigger_pipeline,
  trigger_due, poll_and_trigger,
}

-- Ids that are new to the executions and to one another.
abbrev pub Fresh : List String → Executions.Table → Type 0
Fresh [] executions = Unit
Fresh (id ∷ ids) executions =
    (find key id executions ≡ none) × All (λ i. id ≢ i) ids × Fresh ids executions

Fresh-append :
    (ids : List String) (x : Execution) (executions : Executions.Table)
    → All (λ i. key x ≢ i) ids
    → Fresh ids executions
    → Fresh ids (executions ++ x ∷ [])
Fresh-append [] x executions n f = tt
Fresh-append (id ∷ ids) x executions n f =
    (find-append_ne key id executions x (n.0) ∙ f.0, f.1, Fresh-append ids x executions n.1 f.2)

abbrev pub ids_drawn : Poll → Table → List String
ids_drawn p t = map (λ s. (p.trigger s).execution_id) (select (fires p) t)

abbrev pub fired_execution : Poll → PipelineSchedule → Execution
fired_execution p s = record {
  execution_id = (p.trigger s).execution_id;
  pipeline_name = s.pipeline_name;
  state = ExecutionState.pending;
  total_jobs = 0;
  jobs_dispatched = 0;
  jobs_completed = 0;
  jobs_failed = 0;
  deduplicated_jobs = 0;
  created_at = p.now;
  completed_at = none;
  error_message = none;
  runtime_params = or_empty s.runtime_params;
  rate_limit = none;
  driver_id = none;
  driver_heartbeat_at = none;
  plan_complete = some false;
}

-- A trigger at which nothing goes wrong.
abbrev pub Works : Trigger → Type 0
Works g = (g.configured ≡ true) × (g.reachable ≡ true) × (g.started ≡ true)

-- The executions after a poll: those before it, and at most one for each schedule that has fired.
abbrev pub Adds : ℕ → Executions.Table → Executions.Table → Type 0
Adds n before after = (new : Executions.Table) × (after ≡ before ++ new) × (length new ≤ n)

start_execution-Adds :
    (now : ℕ) (g : Trigger) (s : PipelineSchedule) (executions : Executions.Table)
    → Adds 1 executions (start_execution now g s executions).1
unfolding start_execution create_execution
start_execution-Adds now g s executions = elim (Bool-cases (g.configured && g.reachable)) [
  | inl b ↦ elim (Option-cases (get_execution g.execution_id executions)) [
    | inl e ↦ rw (b, e, start_execution, create_execution) (_, refl, omega arith)
    | inr e ↦
        rw (b, e.1, start_execution, create_execution)
          ([], sym (append-nil executions), omega arith)
  ]
  | inr b ↦ rw (b, start_execution) ([], sym (append-nil executions), omega arith)
]

starts :
    (now : ℕ) (g : Trigger) (s : PipelineSchedule) (executions : Executions.Table)
    → Works g
    → find key g.execution_id executions ≡ none
    → start_execution now g s executions ≡ (
      true,
      executions
          ++ new_execution now g.execution_id s.pipeline_name (or_empty s.runtime_params) none ∷ [],
    )
unfolding start_execution create_execution
starts now g s executions w f =
    let e = new_execution now g.execution_id s.pipeline_name (or_empty s.runtime_params) none in
    let made : create_execution now g.execution_id s.pipeline_name s.runtime_params none executions
        ≡ some (executions ++ e ∷ []) =
      rw (f, create_execution) refl in
    rw (w.0, w.1, made, start_execution) (rw w.2 refl)

module _ (compute_next_run : String → ℕ → ℕ) where
  -- The row of a schedule that has fired, with the id of its last execution.
  abbrev pub went_on : Poll → Option String → PipelineSchedule → PipelineSchedule
  went_on p last s = record {
    pipeline_name = s.pipeline_name;
    schedule_name = s.schedule_name;
    cron_expression = s.cron_expression;
    runtime_params = s.runtime_params;
    next_run_at = compute_next_run s.cron_expression p.now;
    last_triggered_at = some p.now;
    last_execution_id = last;
    enabled = s.enabled;
  }

  fires_one :
      (p : Poll) (s : PipelineSchedule) (executions : Executions.Table)
      → Works (p.trigger s)
      → find key (p.trigger s).execution_id executions ≡ none
      → trigger_pipeline compute_next_run p.now (p.trigger s) s executions ≡ (
        advance compute_next_run p.now (some (p.trigger s).execution_id) s,
        executions ++ fired_execution p s ∷ [],
      )
  unfolding trigger_pipeline
  fires_one p s executions w f = rw (starts p.now (p.trigger s) s executions w f) refl

  abbrev pub fired : Poll → PipelineSchedule → PipelineSchedule
  fired p s = went_on p (some (p.trigger s).execution_id) s

  due-fired :
      (p : Poll) (t : Table) (executions : Executions.Table)
      → All (λ s. Works (p.trigger s)) t
      → Fresh (ids_drawn p t) executions
      → trigger_due compute_next_run p t executions
        ≡ (update (fires p) (fired p) t, executions ++ map (fired_execution p) (select (fires p) t))
  unfolding trigger_due update select
  due-fired p [] executions w f = ap (λ x. ([], x)) (sym (append-nil executions))
  due-fired p (s ∷ t) executions w f = elim (Bool-cases (fires p s)) [
    | inl e ↦
        let f' : Fresh ((p.trigger s).execution_id ∷ ids_drawn p t) executions = rw e at f in
        let x = fired_execution p s in
        let rest =
          due-fired p t (executions ++ x ∷ []) w.1
            (Fresh-append (ids_drawn p t) x executions f'.1 f'.2) in
        rw (e, fires_one p s executions w.0 f'.0, rest)
          (ap (λ all. (fired p s ∷ update (fires p) (fired p) t, all))
            (append_assoc executions (x ∷ []) (map (fired_execution p) (select (fires p) t))))
    | inr e ↦
        let f' : Fresh (ids_drawn p t) executions = rw e at f in
        rw (e, due-fired p t executions w.1 f') refl
  ]

  -- A row after a poll: it has fired and goes on to its next time, or it is as it was.
  abbrev pub Advanced : Poll → PipelineSchedule → PipelineSchedule → Type 0
  Advanced p s s' =
      ((fires p s ≡ true)
        × ((s' ≡ went_on p (some (p.trigger s).execution_id) s)
            ⊎ (s' ≡ went_on p s.last_execution_id s)))
      ⊎ ((fires p s ≡ false) × (s' ≡ s))

  advance-went_on :
      (p : Poll) (started : Bool) (s : PipelineSchedule)
      → let s' =
          advance compute_next_run p.now
            (if started then some (p.trigger s).execution_id else none)
            s in
        (s' ≡ went_on p (some (p.trigger s).execution_id) s)
        ⊎ (s' ≡ went_on p s.last_execution_id s)
  advance-went_on p true s = inl refl
  advance-went_on p false s = inr refl

  due-Adds :
      (p : Poll) (t : Table) (executions : Executions.Table)
      → let r = trigger_due compute_next_run p t executions in
        Rows (Advanced p) t r.0 × Adds (count (fires p) t) executions r.1
  unfolding trigger_due count trigger_pipeline
  due-Adds p [] executions = (Rows.nil, ([], sym (append-nil executions), omega arith))
  due-Adds p (s ∷ t) executions = elim (Bool-cases (fires p s)) [
    | inl e ↦
        let start = start_execution p.now (p.trigger s) s executions in
        let (new, eq, n) = start_execution-Adds p.now (p.trigger s) s executions in
        let (rows, (rest, eq', m)) = due-Adds p t start.1 in
        rw e (
          Rows.cons (inl (e, advance-went_on p start.0 s)) rows,
          (
            new ++ rest,
            eq' ∙ ap (λ l. l ++ rest) eq ∙ append_assoc executions new rest,
            omega (arith, length-append new rest),
          ),
        )
    | inr e ↦
        let (rows, (rest, eq, m)) = due-Adds p t executions in
        rw e (Rows.cons (inr (e, refl)) rows, (rest, eq, omega (arith, m)))
  ]

  module _ (later : (cron : String) (now : ℕ) → now < compute_next_run cron now) where
    -- A row that has fired is not due.
    advanced_rests :
        (p : Poll) (o : Option String) (s : PipelineSchedule) → fires p (went_on p o s) ≡ false
    advanced_rests p o s = ground (arith, later s.cron_expression p.now)

    updated_rest :
        (p : Poll) (t : Table) → All (λ s. fires p s ≡ false) (update (fires p) (fired p) t)
    updated_rest p t =
        All-update_cases (fires p) (λ s. fires p s ≡ false) (fired p)
          (λ s e. advanced_rests p (some (p.trigger s).execution_id) s) (λ s e. e) t

    -- A poll at which every trigger works creates one execution for each schedule that is enabled, due
    -- and not locked, with the schedule's pipeline and parameters and in their order, and no other; it
    -- writes the execution, the time and the next time to the rows of these schedules and leaves the
    -- other rows as they are; and none of the schedules is still to fire at that time. The drawn ids are
    -- new, the poll's commit succeeds, and the next time of a cron expression is later.
    pub poll_and_trigger-fires :
        (p : Poll) (t : Table) (executions : Executions.Table)
        → All (λ s. Works (p.trigger s)) t
        → Fresh (ids_drawn p t) executions
        → let r = poll_and_trigger compute_next_run p true t executions in
          (r.1 ≡ executions ++ map (fired_execution p) (select (fires p) t))
          × (r.0 ≡ update (fires p) (fired p) t)
          × All (λ s. fires p s ≡ false) r.0
    unfolding poll_and_trigger
    poll_and_trigger-fires p t executions w f =
        rw (due-fired p t executions w f) (refl, refl, updated_rest p t)

    Advanced-rests :
        (p : Poll) (t u : Table) → Rows (Advanced p) t u → All (λ s. fires p s ≡ false) u
    Advanced-rests p [] [] Rows.nil = tt
    Advanced-rests p [] (s' ∷ u) rows = elim rows [ ]
    Advanced-rests p (s ∷ t) [] rows = elim rows [ ]
    Advanced-rests p (s ∷ t) (s' ∷ u) (Rows.cons h rows) = (
      elim h [
        | inl a ↦ elim (a.1) [
          | inl id ↦ ap (fires p) id ∙ advanced_rests p (some (p.trigger s).execution_id) s
          | inr id ↦ ap (fires p) id ∙ advanced_rests p s.last_execution_id s
        ]
        | inr a ↦ ap (fires p) a.1 ∙ a.0
      ],
      Advanced-rests p t u rows,
    )

    -- However the triggers go, each schedule that is enabled, due and not locked goes on to its next
    -- time, the others stay as they are, and none is still to fire at that time; at most one execution
    -- is created for each that fires, and no execution is lost. If the commit of the poll fails, the
    -- schedules stay as they were, but the executions are there. The next time of a cron expression is
    -- later.
    pub poll_and_trigger_advances :
        (p : Poll) (committed : Bool) (t : Table) (executions : Executions.Table)
        → let r = poll_and_trigger compute_next_run p committed t executions in
          Adds (count (fires p) t) executions r.1
          × (((committed ≡ true) × Rows (Advanced p) t r.0 × All (λ s. fires p s ≡ false) r.0)
              ⊎ ((committed ≡ false) × (r.0 ≡ t)))
    unfolding poll_and_trigger
    poll_and_trigger_advances p true t executions =
        let (rows, adds) = due-Adds p t executions in
        (
          adds,
          inl (refl, rows, Advanced-rests p t (trigger_due compute_next_run p t executions).0 rows),
        )
    poll_and_trigger_advances p false t executions = ((due-Adds p t executions).1, inr (refl, refl))
