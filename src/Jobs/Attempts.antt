-- ===== src/Jobs/Attempts.antt =====
-- How often a job is started: `attempts` of class Job (reflowfy/reflow_manager/models.py) under the
-- statements of job_manager.py and worker/executor.py.
pub mod Starts
use reflowfy.Prelude.{◌⊎◌, ℕ, ◌≤◌, ◌<◌, String, true, false, ◌≡◌, arith}
use reflowfy.Prelude.Sql.{All-update, All-map, update-update}
use reflowfy.Prelude.{All}
use reflowfy.Jobs.{Job, is_unstarted}
use reflowfy.Jobs.Manager.{
  Table, Leases, mark_job_dispatched, cancel_unstarted_jobs, requeue_failed, update_job_state,
  sweep_row, sweep_table,
}
use reflowfy.Jobs.Steps.{
  Step, Run, dispatch, unsendable, claim, beat, finish, sweep, stop, retry, restart, here, next,
}
use reflowfy.Jobs.Worker.{claim_job, claim_table, heartbeat_job, update_job_in_db, final_state}

-- What a job's row says when it is started at most `cap` times between two resets.
pub record IsCapped (cap : ℕ) (j : Job) : Type 0 where
  pub bounded : j.attempts ≤ cap
  pub startable : (is_unstarted j.state ≡ false) ⊎ (j.attempts < cap)

-- The statements of a distributed run in which every lease sweep has the same JOB_MAX_ATTEMPTS.
-- `restart` is left out, it is the local mode's; `retry` too, it starts a job's count anew.
abbrev pub IsDistributed : (cap : ℕ) (t u : Table) → Step t u → Type 0
IsDistributed cap _ _ (Step.sweep l _ _ _) = l.max_attempts ≡ cap
IsDistributed cap _ _ (Step.retry _ _ _ _ _) = ⊥
IsDistributed cap _ _ (Step.restart _ _ _) = ⊥
IsDistributed cap _ _ _ = Unit

module _ (cap : ℕ) where
  dispatch-IsCapped :
      (now : ℕ) (id : String) (t : Table)
      → All (IsCapped cap) t
      → All (IsCapped cap) (mark_job_dispatched now id t)
  unfolding mark_job_dispatched
  dispatch-IsCapped now id t h =
      rw update-update (All-map (IsCapped cap) _ (λ j c. ground arith) t h)

  sweep_row-IsCapped :
      (l : Leases) (now : ℕ) (eid : String) (j : Job)
      → l.max_attempts ≡ cap
      → IsCapped cap j
      → IsCapped cap (sweep_row l now eid j)
  unfolding sweep_row
  sweep_row-IsCapped l now eid j e c = ground arith

  step-IsCapped :
      {t u : Table} (s : Step t u)
      → 0 < cap
      → IsDistributed cap t u s
      → All (IsCapped cap) t
      → All (IsCapped cap) u
  unfolding update_job_state heartbeat_job cancel_unstarted_jobs
  step-IsCapped (dispatch now id t) pos d h = dispatch-IsCapped now id t h
  step-IsCapped (unsendable now id reason t) pos d h =
      All-update _ (IsCapped cap) _ (λ j c p. ground arith) t h
  step-IsCapped (claim false now id t) pos d h = unfold claim_job in h
  step-IsCapped (claim true now id t) pos d h =
      rw claim_table (All-update _ (IsCapped cap) _ (λ j c p. ground arith) t h)
  step-IsCapped (beat now id t) pos d h = All-update _ (IsCapped cap) _ (λ j c p. ground arith) t h
  step-IsCapped (finish false now id s t) pos d h = unfold update_job_in_db in h
  step-IsCapped (finish true now id s t) pos d h =
      unfold update_job_in_db final_state in
      All-update _ (IsCapped cap) _ (λ j c p. ground arith) t h
  step-IsCapped (sweep l now eid t) pos d h =
      rw sweep_table (All-map (IsCapped cap) _ (λ j. sweep_row-IsCapped l now eid j d) t h)
  step-IsCapped (stop now eid t) pos d h = All-update _ (IsCapped cap) _ (λ j c p. ground arith) t h
  step-IsCapped (retry contains now eid text t) pos d h = absurd d
  step-IsCapped (restart now eid t) pos d h = absurd d

  pub Run-IsCapped :
      {t u : Table}
      → 0 < cap
      → Run (IsDistributed cap) t u
      → All (IsCapped cap) t
      → All (IsCapped cap) u
  Run-IsCapped pos here h = h
  Run-IsCapped pos (next r s d) h = step-IsCapped s pos d (Run-IsCapped pos r h)
