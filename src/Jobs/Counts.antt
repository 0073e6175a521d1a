-- ===== src/Jobs/Counts.antt =====
-- get_job_counts and cancel_unstarted_jobs of reflowfy/reflow_manager/job_manager.py.
use reflowfy.Prelude.{ℕ, ◌+◌, String, [], ◌∷◌, ◌≡◌, refl, arith, ◌==◌, string_eq, length}
use reflowfy.Prelude.Sql.{count, update, select}
use reflowfy.Jobs.{JobState, state_eq}
use reflowfy.Jobs.Manager.{Table, get_job_counts, cancel_unstarted_jobs, is_unstarted_of, cancel}

-- The states partition the jobs.
total_of_states :
    (rows : Table)
    → length rows
      ≡ count (λ j. j.state == JobState.pending) rows
        + count (λ j. j.state == JobState.dispatched) rows
        + count (λ j. j.state == JobState.running) rows
        + count (λ j. j.state == JobState.completed) rows
        + count (λ j. j.state == JobState.failed) rows
        + count (λ j. j.state == JobState.deduplicated) rows
        + count (λ j. j.state == JobState.cancelled) rows
unfolding count
total_of_states [] = refl
total_of_states (j ∷ rows) = ground (arith, total_of_states rows)

-- The counts of an execution add up to its total: every job of it is in exactly one of them.
pub get_job_counts_total :
    (eid : String) (t : Table)
    → let c = get_job_counts eid t in
      c.total
      ≡ c.pending + c.dispatched + c.running + c.completed + c.failed + c.deduplicated + c.cancelled
unfolding get_job_counts
get_job_counts_total eid t = total_of_states (select (λ j. j.execution_id == eid) t)

-- One count before and after the cancel.
module _ (now : ℕ) (eid : String) where
  abbrev rows : Table → Table
  rows = select (λ j. j.execution_id == eid)

  abbrev after : Table → Table
  after = update (is_unstarted_of eid) (cancel now)

  abbrev number : JobState → Table → ℕ
  number s t = count (λ j. j.state == s) (rows t)

  record Cancels (t : Table) : Type 0 where
    cleared_pending : number JobState.pending (after t) ≡ 0
    cleared_dispatched : number JobState.dispatched (after t) ≡ 0
    running : number JobState.running (after t) ≡ number JobState.running t
    completed : number JobState.completed (after t) ≡ number JobState.completed t
    failed : number JobState.failed (after t) ≡ number JobState.failed t
    deduplicated : number JobState.deduplicated (after t) ≡ number JobState.deduplicated t
    cancelled :
        number JobState.cancelled (after t)
        ≡ number JobState.cancelled t + count (is_unstarted_of eid) t
    unstarted :
        count (is_unstarted_of eid) t ≡ number JobState.pending t + number JobState.dispatched t

  cancels : (t : Table) → Cancels t
  unfolding count select update
  cancels [] = ground arith
  cancels (j ∷ t) = ground (arith, cancels t)

-- A cancel takes exactly the pending and the dispatched jobs of the execution and returns their
-- number: they are counted as cancelled after it, and no other count changes.
pub cancel_unstarted_counts :
    (now : ℕ) (eid : String) (t : Table)
    → let (n, u) = cancel_unstarted_jobs now eid t in
      let c = get_job_counts eid t in
      let d = get_job_counts eid u in
      (n ≡ c.pending + c.dispatched)
      × (d.pending ≡ 0)
      × (d.dispatched ≡ 0)
      × (d.cancelled ≡ c.cancelled + n)
      × (d.running ≡ c.running)
      × (d.completed ≡ c.completed)
      × (d.failed ≡ c.failed)
      × (d.deduplicated ≡ c.deduplicated)
unfolding get_job_counts cancel_unstarted_jobs
cancel_unstarted_counts now eid t =
    let c = cancels now eid t in
    (
      c.unstarted, c.cleared_pending, c.cleared_dispatched, c.cancelled, c.running, c.completed,
      c.failed, c.deduplicated,
    )
