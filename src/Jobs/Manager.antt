-- ===== src/Jobs/Manager.antt =====
-- JobManager of reflowfy/reflow_manager/job_manager.py. Each operation takes the table and returns
-- it, with the row count or the rows that the method returns. `now` is the clock that it reads.
-- An UPDATE that does not set `updated_at` sets it all the same: the column has `onupdate`.
use reflowfy.Prelude.{
  ℕ, ◌+◌, String, Bool, true, false, ◌&&◌, ◌||◌, Option, none, some, List, [], ◌∷◌, ◌++◌, map, ltb,
  leb, if◌then◌else◌, ◌==◌, nat_eq, string_eq, take, length, ◌≡◌,
}
use reflowfy.Prelude.Sql.{
  select, update, count, first, any, order_by, update_row, update-eq-map, update-map,
}
use reflowfy.Json.{Json, Fields}
use reflowfy.Jobs.{Job, JobState, state_eq, is_unstarted}

abbrev pub Table : Type 0
Table = List Job

-- What the caller of `create_jobs` gives for each job.
pub record JobRow : Type 0 where
  pub execution_id : String
  pub job_id : String
  pub job_payload : Json
  pub batch_number : ℕ

abbrev pub new_job : ℕ → JobRow → Job
new_job now r = record {
  job_id = r.job_id;
  execution_id = r.execution_id;
  job_payload = r.job_payload;
  batch_number = some r.batch_number;
  state = JobState.pending;
  attempts = 0;
  processed_records = 0;
  error_message = none;
  error_traceback = none;
  stats = none;
  created_at = now;
  updated_at = now;
  dispatched_at = none;
  completed_at = none;
}

-- The primary key: an INSERT of a `job_id` that is there fails.
unfoldable pub has_job : String → Table → Bool
has_job id = any (λ j. j.job_id == id)

-- One INSERT for all rows: `none` is the IntegrityError, which inserts nothing.
unfoldable pub create_jobs : ℕ → List JobRow → Table → Option Table
unfolding has_job
create_jobs now [] t = some t
create_jobs now (r ∷ rows) t =
    if has_job r.job_id t then none else create_jobs now rows (t ++ new_job now r ∷ [])

unfoldable pub get_job : String → Table → Option Job
get_job id t = first (select (λ j. j.job_id == id) t)

-- ORDER BY batch_number, created_at, with NULL last.
abbrev by_batch : Option ℕ → Option ℕ → Bool → Bool
by_batch none none earlier = earlier
by_batch none (some n) earlier = false
by_batch (some m) none earlier = true
by_batch (some m) (some n) earlier = ltb m n || m == n && earlier

unfoldable pub queued_before : Job → Job → Bool
queued_before a b = by_batch a.batch_number b.batch_number (leb a.created_at b.created_at)

abbrev pub is_pending_of : String → Job → Bool
is_pending_of eid j = j.execution_id == eid && j.state == JobState.pending

unfoldable pub get_pending_jobs : String → ℕ → Table → List Job
unfolding queued_before
get_pending_jobs eid limit t = take limit (order_by queued_before (select (is_pending_of eid) t))

abbrev in_state : Option JobState → Job → Bool
in_state none j = true
in_state (some s) j = j.state == s

unfoldable pub get_jobs : String → Option JobState → Table → List Job
get_jobs eid state t =
    order_by (λ a b. leb a.created_at b.created_at)
      (select (in_state state) (select (λ j. j.execution_id == eid) t))

-- Two statements: the time of the send is written on any row, the state on a pending one only.
unfoldable pub mark_job_dispatched : ℕ → String → Table → Table
mark_job_dispatched now id t =
    update (λ j. j.job_id == id && j.state == JobState.pending)
      (λ j. record j { state = JobState.dispatched; updated_at = now })
      (update (λ j. j.job_id == id) (λ j. record j { dispatched_at = some now; updated_at = now })
        t)

abbrev pub is_unstarted_of : String → Job → Bool
is_unstarted_of eid j = j.execution_id == eid && is_unstarted j.state

abbrev pub cancel : ℕ → Job → Job
cancel now j = record j { state = JobState.cancelled; completed_at = some now; updated_at = now }

unfoldable pub cancel_unstarted_jobs : ℕ → String → Table → ℕ × Table
cancel_unstarted_jobs now eid t =
    (count (is_unstarted_of eid) t, update (is_unstarted_of eid) (cancel now) t)

-- `contains e text` is the LIKE of SQL, which is not the program's. NULL matches no text.
abbrev error_matches : (String → String → Bool) → Option String → Option String → Bool
error_matches contains none message = true
error_matches contains (some text) none = text == ""
error_matches contains (some text) (some message) = text == "" || contains message text

abbrev pub is_retried : (String → String → Bool) → String → Option String → Job → Bool
is_retried contains eid text j =
    (j.execution_id == eid && j.state == JobState.failed)
    && error_matches contains text j.error_message

abbrev pub requeue : ℕ → Job → Job
requeue now j = record j {
  state = JobState.pending;
  attempts = 0;
  error_message = none;
  error_traceback = none;
  completed_at = none;
  stats = none;
  updated_at = now;
}

unfoldable pub requeue_failed :
    (String → String → Bool) → ℕ → String → Option String → Table → ℕ × Table
requeue_failed contains now eid text t =
    (count (is_retried contains eid text) t, update (is_retried contains eid text) (requeue now) t)

-- The limits of a lease sweep; `lost` is the message that it writes on a job out of attempts.
pub record Leases : Type 0 where
  pub running_lease : ℕ
  pub dispatch_lease : ℕ
  pub max_attempts : ℕ
  pub lost : String

-- updated_at < now - lease, as an order of sums
abbrev pub is_stale_running : Leases → ℕ → String → Job → Bool
is_stale_running l now eid j =
    (j.execution_id == eid && j.state == JobState.running)
    && ltb (j.updated_at + l.running_lease) now

abbrev sent_before : ℕ → ℕ → Option ℕ → Bool
sent_before lease now none = false
sent_before lease now (some t) = ltb (t + lease) now

abbrev pub is_stale_dispatched : Leases → ℕ → String → Job → Bool
is_stale_dispatched l now eid j =
    (j.execution_id == eid && j.state == JobState.dispatched)
    && sent_before l.dispatch_lease now j.dispatched_at

abbrev pub is_exhausted : Leases → ℕ → String → Job → Bool
is_exhausted l now eid j = is_stale_running l now eid j && leb l.max_attempts j.attempts

abbrev pub fail_lost : Leases → ℕ → Job → Job
fail_lost l now j = record j {
  state = JobState.failed;
  error_message = some l.lost;
  completed_at = some now;
  updated_at = now;
}

abbrev pub back_to_pending : ℕ → Job → Job
back_to_pending now j = record j { state = JobState.pending; updated_at = now }

pub record Reclaimed : Type 0 where
  pub failed : ℕ
  pub requeued_running : ℕ
  pub requeued_dispatched : ℕ

-- The three UPDATEs in their order: the second sees the rows that the first has failed.
unfoldable pub reclaim_expired_leases : Leases → ℕ → String → Table → Reclaimed × Table
reclaim_expired_leases l now eid t =
    let after_failed = update (is_exhausted l now eid) (fail_lost l now) t in
    let after_running = update (is_stale_running l now eid) (back_to_pending now) after_failed in
    (
      record {
        failed = count (is_exhausted l now eid) t;
        requeued_running = count (is_stale_running l now eid) after_failed;
        requeued_dispatched = count (is_stale_dispatched l now eid) after_running;
      },
      update (is_stale_dispatched l now eid) (back_to_pending now) after_running,
    )

-- What the sweep does to one row.
unfoldable pub sweep_row : Leases → ℕ → String → Job → Job
sweep_row l now eid j = update_row (is_stale_dispatched l now eid) (back_to_pending now) (
    update_row (is_stale_running l now eid) (back_to_pending now)
      (update_row (is_exhausted l now eid) (fail_lost l now) j))

pub sweep_table :
    (l : Leases) (now : ℕ) (eid : String) (t : Table)
    → (reclaim_expired_leases l now eid t).1 ≡ map (sweep_row l now eid) t
unfolding reclaim_expired_leases sweep_row
sweep_table l now eid t =
    rw (update-eq-map (is_exhausted l now eid) (fail_lost l now) t, update-map, update-map)

-- A value that is None or falsy leaves the column as it is.
abbrev set_text : Option String → Option String → Option String
set_text none old = old
set_text (some text) old = if text == "" then old else some text

abbrev set_stats : Option Json → Option Json → Option Json
set_stats none old = old
set_stats (some (Json.obj Fields.end)) old = old
set_stats (some stats) old = some stats

abbrev set_number : Option ℕ → ℕ → ℕ
set_number none old = old
set_number (some n) old = n

abbrev ends_job : JobState → Bool
ends_job JobState.completed = true
ends_job JobState.failed = true
ends_job _ = false

unfoldable pub update_job_state :
    ℕ → String → JobState → Option ℕ → Option String → Option Json → Table → Option Job × Table
unfolding get_job
update_job_state now id state processed message stats t =
    let t' =
      update (λ j. j.job_id == id)
        (λ j. record j {
          state = state;
          updated_at = now;
          completed_at = if ends_job state then some now else j.completed_at;
          processed_records = set_number processed j.processed_records;
          error_message = set_text message j.error_message;
          stats = set_stats stats j.stats;
        })
        t in
    (if count (λ j. j.job_id == id) t == 0 then none else get_job id t', t')

is_one_of : List String → String → Bool
is_one_of ids id = any (λ i. i == id) ids

unfoldable pub get_job_states : List String → Table → List (String × JobState)
unfolding is_one_of
get_job_states ids t = map (λ j. (j.job_id, j.state)) (select (λ j. is_one_of ids j.job_id) t)

pub record JobCounts : Type 0 where
  pub total : ℕ
  pub pending : ℕ
  pub dispatched : ℕ
  pub running : ℕ
  pub completed : ℕ
  pub failed : ℕ
  pub deduplicated : ℕ
  pub cancelled : ℕ

abbrev pub is_in : String → JobState → Job → Bool
is_in eid s j = j.execution_id == eid && j.state == s

-- The groups of GROUP BY state, with 0 for a state that has no group; `total` adds up the groups.
unfoldable pub get_job_counts : String → Table → JobCounts
get_job_counts eid t =
    let rows = select (λ j. j.execution_id == eid) t in
    record {
      total = length rows;
      pending = count (λ j. j.state == JobState.pending) rows;
      dispatched = count (λ j. j.state == JobState.dispatched) rows;
      running = count (λ j. j.state == JobState.running) rows;
      completed = count (λ j. j.state == JobState.completed) rows;
      failed = count (λ j. j.state == JobState.failed) rows;
      deduplicated = count (λ j. j.state == JobState.deduplicated) rows;
      cancelled = count (λ j. j.state == JobState.cancelled) rows;
    }

-- The restart of a manager in local mode (PipelineRunner.resume_execution).
abbrev pub is_in_flight_of : String → Job → Bool
is_in_flight_of eid j =
    j.execution_id == eid && (j.state == JobState.dispatched || j.state == JobState.running)

unfoldable pub requeue_orphans : ℕ → String → Table → ℕ × Table
requeue_orphans now eid t =
    (count (is_in_flight_of eid) t, update (is_in_flight_of eid) (back_to_pending now) t)
