-- ===== src/Dlq/Examples.antt =====
-- Three dead letters, and the theorems of Dlq at them.
use reflowfy.Prelude.{
  ℕ, String, Bool, true, false, none, some, [], ◌∷◌, map, ◌≡◌, ◌≢◌, refl, arith, ◌==◌, nat_eq,
  string_eq, if◌then◌else◌,
}
use reflowfy.Prelude.Sql.{select}
use reflowfy.Json.{Json, empty_object}
use reflowfy.Dlq.{
  DlqJob, DlqStatus, Store, has_id, take_up, group_by_params, calculate_backoff,
  process_pipeline_jobs,
}
use reflowfy.Dlq.Poll.{
  Dispatch, RunPipeline, dispatch_jobs, is_due_job, is_taken, poll_and_process,
  process_job_immediately, process_pipeline_immediately,
}
use reflowfy.Dlq.Poll.View.{view, after}
use reflowfy.Dlq.Poll.Settled.{Polled, poll_settles}
use reflowfy.Dlq.Poll.Immediate.{
  Answers, reply, outcome, process_pipeline_immediately-Answers, process_job_immediately-Settles,
}
use reflowfy.Dlq.Retries.{Life, failures, failures-Life}

abbrev job : ℕ → String → DlqJob
job id params = record {
  id = id;
  job_payload = Json.str params;
  pipeline_name = "p";
  scheduled_at = 0;
  delay_minutes = 5;
  status = DlqStatus.pending;
  retry_count = 0;
  max_retries = 2;
  error_message = none;
  created_at = 0;
  processed_at = none;
  execution_id = none;
}

abbrev params : DlqJob → String
params j = elim j.job_payload [ Json.str text ↦ text | _ ↦ "" ]

backoffs : calculate_backoff 1 ≡ 5
unfolding calculate_backoff
backoffs = refl

failures-Life_example : Life (job 1 "a") 3 [] (
    failures
      ((10, "x") ∷ (20, "y") ∷ (30, "z") ∷ [])
      (record { jobs = job 1 "a" ∷ []; archive = [] }))
failures-Life_example =
    failures-Life ((10, "x") ∷ (20, "y") ∷ (30, "z") ∷ []) (job 1 "a") [] (omega arith)

-- Two letters of pipeline "p" with the same params, and one of pipeline "q", which is down.
abbrev letter : ℕ → String → DlqJob
letter id name = record (job id "a") { job_payload = empty_object; pipeline_name = name }

abbrev store : Store
store = record { jobs = letter 1 "p" ∷ letter 2 "q" ∷ letter 3 "p" ∷ []; archive = [] }

abbrev run : RunPipeline
run name d id = if name == "q" then some "down" else none

abbrev dispatch : Dispatch
dispatch = dispatch_jobs "no factory" "not a mapping" (some run) (λ g. "x")

abbrev unlocked : DlqJob → Bool
unlocked j = false

third : select (has_id 3) store.jobs ≡ letter 3 "p" ∷ []
unfolding select
third = refl

second : view 2 store ≡ (letter 2 "q" ∷ [], [])
unfolding select
second = refl

poll_settles_example :
    Polled params
      (letter 3 "p")
      7
      dispatch
      true
      (is_due_job unlocked 7 (letter 3 "p"))
      (view 3 store)
      (view 3 (poll_and_process params unlocked true 7 dispatch store))
poll_settles_example = poll_settles params unlocked true 7 dispatch (letter 3 "p") store third

process_pipeline_immediately-Answers_example :
    ((process_pipeline_immediately params unlocked 7 dispatch "p" store).1
      ≡ process_pipeline_jobs params 7
          (dispatch "p")
          (select (is_taken unlocked "p") store.jobs)
          store)
    × Answers
        (dispatch "p")
        (group_by_params params (map take_up (select (is_taken unlocked "p") store.jobs)))
        (process_pipeline_immediately params unlocked 7 dispatch "p" store).0
process_pipeline_immediately-Answers_example =
    process_pipeline_immediately-Answers params unlocked 7 dispatch "p" store

process_job_immediately-Settles_example :
    ((process_job_immediately 7 dispatch none 2 store).0
      ≡ reply (outcome (dispatch "q" (take_up (letter 2 "q") ∷ [])) none))
    × (view 2 (process_job_immediately 7 dispatch none 2 store).1
        ≡ after 7
            (outcome (dispatch "q" (take_up (letter 2 "q") ∷ [])) none)
            (take_up (letter 2 "q"))
            [])
    × ((i : ℕ) → i ≢ 2 → view i (process_job_immediately 7 dispatch none 2 store).1 ≡ view i store)
process_job_immediately-Settles_example =
    process_job_immediately-Settles 7 dispatch none (letter 2 "q") [] store refl second
