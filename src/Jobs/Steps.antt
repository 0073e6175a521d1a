-- ===== src/Jobs/Steps.antt =====
-- The jobs table under the manager and its workers at once: any interleaving of their statements on
-- jobs that are there. Adding rows (`create_jobs`), writing total_batches into the payloads and
-- deleting expired rows (`purge_expired_executions`) are not among them.
use reflowfy.Prelude.{ℕ, String, Bool, true, false, Option, none, some, ◌≡◌, arith}
use reflowfy.Prelude.Sql.{Rows, Rows-update, Rows-map, Rows-refl, update-update}
use reflowfy.Jobs.{Job, JobState}
use reflowfy.Jobs.Manager.{
  Table, Leases, mark_job_dispatched, cancel_unstarted_jobs, requeue_failed, reclaim_expired_leases,
  update_job_state, requeue_orphans, sweep_row, sweep_table,
}
use reflowfy.Jobs.Worker.{
  claim_job, claim_table, heartbeat_job, update_job_in_db, JobStats, final_state,
}

-- One statement of one process. The constructors name who makes it.
pub data Step : Table → Table → Type 0 where
  dispatch : (now : ℕ) (id : String) (t : Table) → Step t (mark_job_dispatched now id t)
  unsendable :
      (now : ℕ) (id : String) (reason : String) (t : Table)
      → Step t (update_job_state now id JobState.failed none (some reason) none t).1
  claim :
      (reachable : Bool) (now : ℕ) (id : String) (t : Table)
      → Step t (claim_job reachable now id t).1
  beat : (now : ℕ) (id : String) (t : Table) → Step t (heartbeat_job now id t)
  finish :
      (reachable : Bool) (now : ℕ) (id : String) (s : JobStats) (t : Table)
      → Step t (update_job_in_db reachable now id s t)
  sweep :
      (l : Leases) (now : ℕ) (eid : String) (t : Table)
      → Step t (reclaim_expired_leases l now eid t).1
  stop : (now : ℕ) (eid : String) (t : Table) → Step t (cancel_unstarted_jobs now eid t).1
  retry :
      (contains : String → String → Bool) (now : ℕ) (eid : String) (text : Option String)
      (t : Table)
      → Step t (requeue_failed contains now eid text t).1
  restart : (now : ℕ) (eid : String) (t : Table) → Step t (requeue_orphans now eid t).1

-- Statements one after another, each allowed by `P`.
pub data Run (P : (t u : Table) → Step t u → Type 0) (t : Table) : Table → Type 0 where
  here : Run P t t
  next : {u v : Table} → Run P t u → (s : Step u v) → P u v s → Run P t v

-- The moves of a job's state: the life in the comment on `Job.state`, the retries and sweeps of the
-- manager, and a worker's last report, which is written over any state.
abbrev pub may_move : JobState → JobState → Bool
may_move JobState.pending JobState.pending = true
may_move JobState.pending JobState.dispatched = true
may_move JobState.pending JobState.running = true
may_move JobState.pending JobState.cancelled = true
may_move JobState.dispatched JobState.pending = true
may_move JobState.dispatched JobState.dispatched = true
may_move JobState.dispatched JobState.running = true
may_move JobState.dispatched JobState.cancelled = true
may_move JobState.running JobState.pending = true
may_move JobState.running JobState.running = true
may_move JobState.failed JobState.pending = true
may_move JobState.cancelled JobState.cancelled = true
may_move _ JobState.completed = true
may_move _ JobState.failed = true
may_move _ JobState.deduplicated = true
may_move _ _ = false

-- One row across one statement: it is the same job, and its state moves along an edge.
pub record Moves (j k : Job) : Type 0 where
  pub job_id : k.job_id ≡ j.job_id
  pub execution_id : k.execution_id ≡ j.execution_id
  pub job_payload : k.job_payload ≡ j.job_payload
  pub batch_number : k.batch_number ≡ j.batch_number
  pub created_at : k.created_at ≡ j.created_at
  pub edge : may_move j.state k.state ≡ true

Moves-refl : (j : Job) → Moves j j
Moves-refl j = ground arith

dispatch-Moves : (now : ℕ) (id : String) (t : Table) → Rows Moves t (mark_job_dispatched now id t)
unfolding mark_job_dispatched
dispatch-Moves now id t = rw update-update (Rows-map Moves _ (λ j. ground arith) t)

unsendable-Moves :
    (now : ℕ) (id reason : String) (t : Table)
    → Rows Moves t (update_job_state now id JobState.failed none (some reason) none t).1
unfolding update_job_state
unsendable-Moves now id reason t = Rows-update _ Moves _ Moves-refl (λ j h. ground arith) t

claim-Moves : (b : Bool) (now : ℕ) (id : String) (t : Table) → Rows Moves t (claim_job b now id t).1
claim-Moves false now id t = unfold claim_job in Rows-refl Moves Moves-refl t
claim-Moves true now id t =
    rw claim_table (Rows-update _ Moves _ Moves-refl (λ j h. ground arith) t)

beat-Moves : (now : ℕ) (id : String) (t : Table) → Rows Moves t (heartbeat_job now id t)
unfolding heartbeat_job
beat-Moves now id t = Rows-update _ Moves _ Moves-refl (λ j h. ground arith) t

finish-Moves :
    (b : Bool) (now : ℕ) (id : String) (s : JobStats) (t : Table)
    → Rows Moves t (update_job_in_db b now id s t)
unfolding update_job_in_db final_state
finish-Moves false now id s t = Rows-refl Moves Moves-refl t
finish-Moves true now id s t = Rows-update _ Moves _ Moves-refl (λ j h. ground arith) t

sweep_row-Moves : (l : Leases) (now : ℕ) (eid : String) (j : Job) → Moves j (sweep_row l now eid j)
unfolding sweep_row
sweep_row-Moves l now eid j = ground arith

sweep-Moves :
    (l : Leases) (now : ℕ) (eid : String) (t : Table)
    → Rows Moves t (reclaim_expired_leases l now eid t).1
sweep-Moves l now eid t =
    rw sweep_table (Rows-map Moves (sweep_row l now eid) (sweep_row-Moves l now eid) t)

stop-Moves : (now : ℕ) (eid : String) (t : Table) → Rows Moves t (cancel_unstarted_jobs now eid t).1
unfolding cancel_unstarted_jobs
stop-Moves now eid t = Rows-update _ Moves _ Moves-refl (λ j h. ground arith) t

retry-Moves :
    (contains : String → String → Bool) (now : ℕ) (eid : String) (text : Option String) (t : Table)
    → Rows Moves t (requeue_failed contains now eid text t).1
unfolding requeue_failed
retry-Moves contains now eid text t = Rows-update _ Moves _ Moves-refl (λ j h. ground arith) t

restart-Moves : (now : ℕ) (eid : String) (t : Table) → Rows Moves t (requeue_orphans now eid t).1
unfolding requeue_orphans
restart-Moves now eid t = Rows-update _ Moves _ Moves-refl (λ j h. ground arith) t

-- Each statement on jobs that are there already, of the manager (a dispatch, a failure to send, a
-- lease sweep, a cancel, a retry, the local restart) or of a worker (a claim, a beat, the last report),
-- keeps each job's row, identity and payload, and moves its state as `may_move` allows. So none of
-- them takes a completed, deduplicated or cancelled job back to the queue, and only a failed or an
-- unfinished one can become pending.
pub Step-Moves : {t u : Table} → Step t u → Rows Moves t u
Step-Moves (dispatch now id t) = dispatch-Moves now id t
Step-Moves (unsendable now id reason t) = unsendable-Moves now id reason t
Step-Moves (claim b now id t) = claim-Moves b now id t
Step-Moves (beat now id t) = beat-Moves now id t
Step-Moves (finish b now id s t) = finish-Moves b now id s t
Step-Moves (sweep l now eid t) = sweep-Moves l now eid t
Step-Moves (stop now eid t) = stop-Moves now eid t
Step-Moves (retry contains now eid text t) = retry-Moves contains now eid text t
Step-Moves (restart now eid t) = restart-Moves now eid t
