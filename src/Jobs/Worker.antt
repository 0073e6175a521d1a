-- ===== src/Jobs/Worker.antt =====
-- The worker's statements on its job row: _claim_job, _heartbeat_job and _update_job_in_db of
-- reflowfy/worker/executor.py.
use reflowfy.Prelude.{
  ℕ, ◌+◌, String, Bool, true, false, ◌&&◌, Option, none, some, if◌then◌else◌, ◌==◌, nat_eq,
  string_eq, ◌≡◌, arith,
}
use reflowfy.Prelude.Sql.{select, update, count, first}
use mathlib.Core.Option
use reflowfy.Json.{Json}
use reflowfy.Jobs.{Job, JobState, state_eq, is_unstarted}
use reflowfy.Jobs.Manager.{Table}

abbrev pub is_claimable : String → Job → Bool
is_claimable id j = j.job_id == id && is_unstarted j.state

abbrev pub start_job : ℕ → Job → Job
start_job now j = record j { state = JobState.running; attempts = j.attempts + 1; updated_at = now }

-- `none` lets this delivery run the job; otherwise the state that blocks it. `reachable` is false
-- where the database raised, and the job then runs unclaimed.
unfoldable pub claim_job : Bool → ℕ → String → Table → Option JobState × Table
claim_job false now id t = (none, t)
claim_job true now id t =
    if count (is_claimable id) t == 1 then (none, update (is_claimable id) (start_job now) t) else (
      Option.map (λ j. j.state) (first (select (λ j. j.job_id == id) t)),
      update (is_claimable id) (start_job now) t,
    )

-- Whether the claim succeeds or is blocked, the same UPDATE has run.
pub claim_table :
    (now : ℕ) (id : String) (t : Table)
    → (claim_job true now id t).1 ≡ update (is_claimable id) (start_job now) t
unfolding claim_job
claim_table now id t = ground arith

-- One beat of the loop.
unfoldable pub heartbeat_job : ℕ → String → Table → Table
heartbeat_job now id t =
    update (λ j. j.job_id == id && j.state == JobState.running) (λ j. record j { updated_at = now })
      t

-- The fields of JobStats that reach the row.
pub record JobStats : Type 0 where
  pub success : Bool
  pub deduplicated : Bool
  pub records_output : ℕ
  pub error : Option String
  pub error_traceback : Option String
  pub as_dict : Json

unfoldable pub final_state : JobStats → JobState
final_state s =
    if s.deduplicated
    then JobState.deduplicated
    else if s.success
    then JobState.completed
    else JobState.failed

abbrev or_keep : Option String → Option String → Option String
or_keep none old = old
or_keep (some text) old = if text == "" then old else some text

abbrev pub finish : ℕ → JobStats → Job → Job
finish now s j = record j {
  state = final_state s;
  updated_at = now;
  completed_at = some now;
  processed_records = s.records_output;
  stats = some s.as_dict;
  error_message = or_keep s.error j.error_message;
  error_traceback = or_keep s.error_traceback j.error_traceback;
}

-- A database error is logged and rolled back: `reachable` is false there.
unfoldable pub update_job_in_db : Bool → ℕ → String → JobStats → Table → Table
update_job_in_db false now id s t = t
update_job_in_db true now id s t = update (λ j. j.job_id == id) (finish now s) t
