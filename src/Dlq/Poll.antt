-- ===== src/Dlq/Poll.antt =====
-- When dead letters are taken up: `_dispatch_jobs`, `_poll_and_process`, `process_job_immediately` and
-- `process_pipeline_immediately` of reflowfy/reflow_manager/dlq_scheduler.py. `locked` are the rows
-- that another session has locked; an operation reads the clock once. The
-- commits of process_pipeline_immediately, and of a failure in process_job_immediately, succeed.
pub mod View
pub mod Once
pub mod Settle
pub mod Pipeline
pub mod Settled
pub mod Immediate
use reflowfy.Prelude.{
  ℕ, String, Bool, true, false, not, ◌&&◌, Option, none, some, List, [], ◌∷◌, ◌++◌, map, ◌⊎◌, inl,
  inr, if◌then◌else◌, ◌==◌, string_eq, leb,
}
use reflowfy.Prelude.Sql.{select, first, any, count}
use reflowfy.Json.{Json, Fields}
use reflowfy.Json.Dict.{set, items}
use reflowfy.Dlq.{
  DlqStatus, DlqJob, Store, has_id, take_up, mark_processing, group_loop, group_by_params,
  mark_completed, fail_all, handle_job_failure, process_pipeline_jobs,
}

abbrev pub is_pending : DlqStatus → Bool
is_pending DlqStatus.pending = true
is_pending _ = false

abbrev is_completed : DlqStatus → Bool
is_completed DlqStatus.completed = true
is_completed _ = false

-- `jobs[0].job_payload if jobs else {}`, which `{**runtime_params}` needs to be a dict.
abbrev pub group_params : List DlqJob → Option Fields
group_params [] = some Fields.end
group_params (j ∷ jobs) = elim j.job_payload [ Json.obj d ↦ some d | _ ↦ none ]

abbrev pub with_metadata : List DlqJob → Fields → Fields
with_metadata jobs d =
    set "_dlq_job_ids" (Json.arr (items (map (λ j. Json.num j.id) jobs)))
      (set "_dlq_source" (Json.bool true) d)

-- `run` is run_pipeline with the name, the params and the id: its error, or none.
abbrev pub RunPipeline : Type 0
RunPipeline = String → Fields → String → Option String

-- An exception's text, or the id of the execution, which is drawn.
unfoldable pub dispatch_jobs :
    (no_factory not_a_mapping : String)
    → Option RunPipeline
    → (drawn : List DlqJob → String) → (pipeline_name : String) → List DlqJob
    → String ⊎ String
dispatch_jobs no_factory not_a_mapping none drawn name jobs = inl no_factory
dispatch_jobs no_factory not_a_mapping (some run) drawn name jobs = elim (group_params jobs) [
  | none ↦ inl not_a_mapping
  | some d ↦ elim (run name (with_metadata jobs d) (drawn jobs)) [
    | some error ↦ inl error
    | none ↦ inr (drawn jobs)
  ]
]

abbrev pub is_due_job : (locked : DlqJob → Bool) → ℕ → DlqJob → Bool
is_due_job locked now j = (is_pending j.status && leb j.scheduled_at now) && not (locked j)

abbrev pub Dispatch : Type 0
Dispatch = String → List DlqJob → String ⊎ String

unfoldable pub process_pipelines :
    (DlqJob → String) → ℕ → Dispatch → List (String × List DlqJob) → Store → Store
process_pipelines key now dispatch [] s = s
process_pipelines key now dispatch (g ∷ gs) s =
    process_pipelines key now dispatch gs (process_pipeline_jobs key now (dispatch g.0) g.1 s)

abbrev pub name_of : DlqJob → String
name_of j = j.pipeline_name

-- The table after a poll whose commit succeeds, or does not.
unfoldable pub poll_and_process :
    (DlqJob → String) → (locked : DlqJob → Bool) → (commits : Bool) → ℕ → Dispatch → Store → Store
poll_and_process key locked commits now dispatch s =
    let due = select (is_due_job locked now) s.jobs in
    let done = process_pipelines key now dispatch (group_loop name_of due []) s in
    if commits then done else s

-- `missing` is None; `not_pending` and `failed` are exceptions.
pub data Answer : Type 0 where
  missing : Answer
  not_pending : Answer
  dispatched : (execution_id : String) → Answer
  failed : (error : String) → Answer

-- The dispatch, and the commit of a dispatch that has worked, with its exception.
abbrev pub dispatched_or : Option String → String ⊎ String → String ⊎ String
dispatched_or commit_error (inl error) = inl error
dispatched_or (some error) (inr eid) = inl error
dispatched_or none (inr eid) = inr eid

-- After a rollback the row is the one from before.
unfoldable pub process_job_immediately :
    ℕ → Dispatch → (commit_error : Option String) → (job_id : ℕ) → Store → Answer × Store
process_job_immediately now dispatch commit_error job_id s =
    elim (first (select (has_id job_id) s.jobs)) [
      | none ↦ (Answer.missing, s)
      | some j ↦ elim (is_pending j.status) [
        | false ↦ (Answer.not_pending, s)
        | true ↦ elim (dispatched_or commit_error (dispatch j.pipeline_name (take_up j ∷ []))) [
          | inr eid ↦ (
            Answer.dispatched eid,
            mark_completed now eid (take_up j ∷ []) (mark_processing (j ∷ []) s),
          )
          | inl error ↦ (Answer.failed error, handle_job_failure now error j s)
        ]
      ]
    ]

-- `execution_ids`, `last_error` and the table.
pub record Progress : Type 0 where
  pub execution_ids : List String
  pub last_error : Option String
  pub store : Store

unfoldable pub dispatch_groups :
    ℕ → (List DlqJob → String ⊎ String) → List (List DlqJob) → Progress → Progress
dispatch_groups now dispatch [] p = p
dispatch_groups now dispatch (g ∷ gs) p = elim (dispatch g) [
  | inl error ↦
      dispatch_groups now dispatch gs
        (record p { last_error = some error; store = fail_all now error g p.store })
  | inr eid ↦ dispatch_groups now dispatch gs (record p {
    execution_ids = p.execution_ids ++ eid ∷ [];
    store = mark_completed now eid g p.store;
  })
]

-- The error that is raised, or the number of jobs that are dispatched and the executions.
abbrev pub dispatched_answer :
    List String → Option String → (completed : ℕ) → String ⊎ (ℕ × List String)
dispatched_answer [] (some error) completed = inl error
dispatched_answer ids last_error completed = inr (completed, ids)

abbrev pub is_taken : (locked : DlqJob → Bool) → (pipeline_name : String) → DlqJob → Bool
is_taken locked name j = (j.pipeline_name == name && is_pending j.status) && not (locked j)

unfoldable pub process_pipeline_immediately :
    (DlqJob → String)
    → (locked : DlqJob → Bool) → ℕ
    → Dispatch
    → (pipeline_name : String) → Store
    → (String ⊎ (ℕ × List String)) × Store
process_pipeline_immediately key locked now dispatch name s =
    let jobs = select (is_taken locked name) s.jobs in
    let start : Progress = record {
      execution_ids = [];
      last_error = none;
      store = mark_processing jobs s;
    } in
    let p = dispatch_groups now (dispatch name) (group_by_params key (map take_up jobs)) start in
    let completed = count (λ j. is_completed j.status && any (has_id j.id) jobs) p.store.jobs in
    (dispatched_answer p.execution_ids p.last_error completed, p.store)
