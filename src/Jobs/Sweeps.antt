-- ===== src/Jobs/Sweeps.antt =====
-- The lease sweep: reclaim_expired_leases of reflowfy/reflow_manager/job_manager.py.
use reflowfy.Prelude.{
  ℕ, ◌+◌, ◌&&◌, String, some, false, ap, [], ◌∷◌, ◌≡◌, refl, arith, All, leb, ltb, map, Bool, none,
  ◌==◌, string_eq, if◌then◌else◌, ◌∙◌,
}
use reflowfy.Prelude.Sql.{count, update, count-update_same}
use reflowfy.Jobs.{Job, JobState, state_eq}
use reflowfy.Jobs.Manager.{
  Table, Leases, reclaim_expired_leases, sweep_row, sweep_table, is_stale_running,
  is_stale_dispatched, is_exhausted, fail_lost, back_to_pending,
}

module _ (l : Leases) (now : ℕ) (eid : String) where
  -- A job of the execution that ran out of its running lease is failed if it has had its attempts
  -- and goes back to pending if not; one whose message was lost goes back; any other is left alone.
  pub sweep_row_cases :
      (j : Job)
      → sweep_row l now eid j ≡ (
          if is_stale_running l now eid j
          then (if leb l.max_attempts j.attempts then fail_lost l now j else back_to_pending now j)
          else if is_stale_dispatched l now eid j
          then back_to_pending now j
          else j)
  unfolding sweep_row
  sweep_row_cases j = ground arith

  fresh_row :
      (j : Job)
      → (is_stale_running l now eid (sweep_row l now eid j) ≡ false)
        × (is_stale_dispatched l now eid (sweep_row l now eid j) ≡ false)
  unfolding sweep_row
  fresh_row j = ground arith

  fresh_rows :
      (t : Table)
      → All
          (λ j. (is_stale_running l now eid j ≡ false) × (is_stale_dispatched l now eid j ≡ false))
          (map (sweep_row l now eid) t)
  fresh_rows [] = tt
  fresh_rows (j ∷ t) = (fresh_row j, fresh_rows t)

  -- The counts of the second and third statement, in terms of the table before the sweep.
  count_running :
      (t : Table)
      → count (is_exhausted l now eid) t
          + count (is_stale_running l now eid) (update (is_exhausted l now eid) (fail_lost l now) t)
        ≡ count (is_stale_running l now eid) t
  unfolding count update
  count_running [] = refl
  count_running (j ∷ t) = ground (arith, count_running t)

  count_dispatched :
      (t : Table)
      → count (is_stale_dispatched l now eid) (
          update
            (is_stale_running l now eid)
            (back_to_pending now)
            (update (is_exhausted l now eid) (fail_lost l now) t))
        ≡ count (is_stale_dispatched l now eid) t
  count_dispatched t =
      count-update_same (is_stale_dispatched l now eid) _ _ (λ j h. ground arith) _
      ∙ count-update_same (is_stale_dispatched l now eid) _ _ (λ j h. ground arith) t

-- A running job of the execution whose last sign of life is further back than its lease.
abbrev pub is_silent : Leases → ℕ → String → Job → Bool
is_silent l now eid j =
    (j.execution_id == eid && j.state == JobState.running)
    && ltb (j.updated_at + l.running_lease) now

-- A dispatched job that was sent further back than its lease.
abbrev pub is_unheard : Leases → ℕ → String → Job → Bool
is_unheard l now eid j =
    (j.execution_id == eid && j.state == JobState.dispatched)
    && elim j.dispatched_at [ none ↦ false | some t ↦ ltb (t + l.dispatch_lease) now ]

-- A row after a sweep, written out.
abbrev pub swept : Leases → ℕ → String → Job → Job
swept l now eid j =
    if is_silent l now eid j
    then if leb l.max_attempts j.attempts
      then record j {
        state = JobState.failed;
        error_message = some l.lost;
        completed_at = some now;
        updated_at = now;
      }
      else record j { state = JobState.pending; updated_at = now }
    else if is_unheard l now eid j
    then record j { state = JobState.pending; updated_at = now }
    else j

map-swept :
    (l : Leases) (now : ℕ) (eid : String) (t : Table)
    → map (sweep_row l now eid) t ≡ map (swept l now eid) t
map-swept l now eid [] = refl
map-swept l now eid (j ∷ t) =
    ap (λ (x : Job). x ∷ map (sweep_row l now eid) t) (sweep_row_cases l now eid j)
    ∙ ap (◌∷◌ (swept l now eid j)) (map-swept l now eid t)

-- A sweep fails, with the message and the time, each running job of the execution that is past its
-- lease and out of attempts; it puts each other running job past its lease and each dispatched job
-- past its own back to pending, and leaves every other job as it is. So no job of the execution is
-- left with an expired lease. It reports as failed the running jobs past their lease that are out of
-- attempts, as requeued the other running jobs past their lease, and apart from these the dispatched
-- jobs past theirs, each job once.
pub reclaim_complete :
    (l : Leases) (now : ℕ) (eid : String) (t : Table)
    → let (r, u) = reclaim_expired_leases l now eid t in
      All (λ j. (is_silent l now eid j ≡ false) × (is_unheard l now eid j ≡ false)) u
      × (u ≡ map (swept l now eid) t)
      × (r.failed ≡ count (λ j. is_silent l now eid j && leb l.max_attempts j.attempts) t)
      × (r.failed + r.requeued_running ≡ count (is_silent l now eid) t)
      × (r.requeued_dispatched ≡ count (is_unheard l now eid) t)
reclaim_complete l now eid t = (
  rw sweep_table (fresh_rows l now eid t),
  sweep_table l now eid t ∙ map-swept l now eid t,
  unfold reclaim_expired_leases in refl,
  unfold reclaim_expired_leases in count_running l now eid t,
  unfold reclaim_expired_leases in count_dispatched l now eid t,
)
