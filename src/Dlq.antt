-- ===== src/Dlq.antt =====
-- The retry of dead letters: reflowfy/reflow_manager/dlq_scheduler.py over the tables of class DLQJob
-- and class DLQJobArchive (reflowfy/reflow_manager/models.py). Times are microseconds.
pub mod Groups
pub mod Retries
pub mod Poll
mod Examples
use reflowfy.Prelude.{
  ℕ, ◌+◌, ◌-◌, ◌*◌, ◌^◌, String, Bool, true, false, ◌&&◌, Option, none, some, List, [], ◌∷◌, ◌++◌,
  map, ◌⊎◌, inl, inr, if◌then◌else◌, ◌==◌, nat_eq, string_eq, leb,
}
use reflowfy.Prelude.Sql.{select, update, delete}
use reflowfy.Json.{Json}

pub data DlqStatus : Type 0 where
  pending processing completed : DlqStatus

pub record DlqJob : Type 0 where
  pub id : ℕ
  pub job_payload : Json
  pub pipeline_name : String
  pub scheduled_at : ℕ
  pub delay_minutes : ℕ
  pub status : DlqStatus
  pub retry_count : ℕ
  pub max_retries : ℕ
  pub error_message : Option String
  pub created_at : ℕ
  pub processed_at : Option ℕ
  pub execution_id : Option String

pub record DlqJobArchive : Type 0 where
  pub id : ℕ
  pub job_payload : Json
  pub pipeline_name : String
  pub delay_minutes : ℕ
  pub retry_count : ℕ
  pub max_retries : ℕ
  pub error_message : Option String
  pub created_at : ℕ
  pub archived_at : ℕ

pub record Store : Type 0 where
  pub jobs : List DlqJob
  pub archive : List DlqJobArchive

abbrev pub has_id : ℕ → DlqJob → Bool
has_id i j = j.id == i

-- In minutes; it is called with a count of at least 1.
unfoldable pub calculate_backoff : ℕ → ℕ
calculate_backoff retry_count = 5 * 2 ^ (retry_count - 1)

abbrev pub archived : ℕ → DlqJob → DlqJobArchive
archived now j = record {
  id = j.id;
  job_payload = j.job_payload;
  pipeline_name = j.pipeline_name;
  delay_minutes = j.delay_minutes;
  retry_count = j.retry_count;
  max_retries = j.max_retries;
  error_message = j.error_message;
  created_at = j.created_at;
  archived_at = now;
}

-- The archive takes over the id, its primary key. A job goes there once, as the sequence of the queue
-- draws an id once, so that no row of the archive has it yet; the error of a second one is left out.
unfoldable pub archive_job : ℕ → DlqJob → Store → Store
archive_job now j s = record {
  jobs = delete (has_id j.id) s.jobs;
  archive = s.archive ++ archived now j ∷ [];
}

-- `j` is the row, which the session writes back.
unfoldable pub handle_job_failure : ℕ → String → DlqJob → Store → Store
unfolding archive_job calculate_backoff
handle_job_failure now error j s =
    let failed = record j { retry_count = j.retry_count + 1; error_message = some error } in
    let again = record failed {
      scheduled_at = now + calculate_backoff failed.retry_count * 60000000;
      status = DlqStatus.pending;
    } in
    if leb failed.max_retries failed.retry_count
    then archive_job now failed s
    else record s { jobs = update (has_id j.id) (λ old. again) s.jobs }

-- The dict of lists: a new key goes to the end.
unfoldable pub add_to_groups {ℓ} :
    {A : Type ℓ} → String → A → List (String × List A) → List (String × List A)
add_to_groups k x [] = (k, x ∷ []) ∷ []
add_to_groups k x (g ∷ gs) =
    let rest = add_to_groups k x gs in if g.0 == k then (g.0, g.1 ++ x ∷ []) ∷ gs else g ∷ rest

unfoldable pub group_loop {ℓ} :
    {A : Type ℓ} → (A → String) → List A → List (String × List A) → List (String × List A)
unfolding add_to_groups
group_loop key [] groups = groups
group_loop key (x ∷ xs) groups = group_loop key xs (add_to_groups (key x) x groups)

-- `key` is the text of a job's params, json.dumps with sorted keys.
unfoldable pub group_by_params : (DlqJob → String) → List DlqJob → List (List DlqJob)
unfolding group_loop
group_by_params key jobs = map (λ g. g.1) (group_loop key jobs [])

unfoldable pub mark_completed : ℕ → String → List DlqJob → Store → Store
mark_completed now eid [] s = s
mark_completed now eid (j ∷ jobs) s = mark_completed now eid jobs (record s {
  jobs =
      update (has_id j.id)
        (λ old. record old {
          status = DlqStatus.completed;
          processed_at = some now;
          execution_id = some eid;
        })
        s.jobs;
})

unfoldable pub fail_all : ℕ → String → List DlqJob → Store → Store
unfolding handle_job_failure
fail_all now error [] s = s
fail_all now error (j ∷ jobs) s = fail_all now error jobs (handle_job_failure now error j s)

-- `dispatch` runs an execution for a group: its error, or the id of the execution.
unfoldable pub process_groups :
    ℕ → (List DlqJob → String ⊎ String) → List (List DlqJob) → Store → Store
unfolding mark_completed fail_all
process_groups now dispatch [] s = s
process_groups now dispatch (g ∷ gs) s = elim (dispatch g) [
  | inl error ↦ process_groups now dispatch gs (fail_all now error g s)
  | inr eid ↦ process_groups now dispatch gs (mark_completed now eid g s)
]

abbrev pub take_up : DlqJob → DlqJob
take_up j = record j { status = DlqStatus.processing }

unfoldable pub mark_processing : List DlqJob → Store → Store
mark_processing [] s = s
mark_processing (j ∷ jobs) s =
    mark_processing jobs (record s { jobs = update (has_id j.id) take_up s.jobs })

unfoldable pub process_pipeline_jobs :
    (DlqJob → String) → ℕ → (List DlqJob → String ⊎ String) → List DlqJob → Store → Store
unfolding process_groups group_by_params
process_pipeline_jobs key now dispatch jobs s =
    let marked = map take_up jobs in
    process_groups now dispatch (group_by_params key marked) (mark_processing jobs s)
