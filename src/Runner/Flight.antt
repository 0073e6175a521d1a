-- ===== src/Runner/Flight.antt =====
-- The jobs in flight under the statements of the drive loop: `_drive_step` and `_send_jobs` of
-- reflowfy/reflow_manager/pipeline_runner.py.
use reflowfy.Prelude.{
  ℕ, ◌+◌, ◌≤◌, String, none, some, [], ◌∷◌, ◌==◌, nat_eq, string_eq, ◌≡◌, refl, arith,
}
use reflowfy.Prelude.Sql.{count, select, update, count-update_same, count-update_le}
use reflowfy.Prelude.Keyed.{IsKeyed, at_key, update-IsKeyed}
use reflowfy.Prelude.KeyedRows.{count-update_keyed}
use reflowfy.Jobs.{Job, JobState, state_eq}
use reflowfy.Jobs.Manager.{
  queued_before, is_pending_of, get_job_counts, mark_job_dispatched, update_job_state,
  get_pending_jobs, reclaim_expired_leases, Leases, is_in_flight_of, is_stale_dispatched,
  is_stale_running, is_exhausted, fail_lost, back_to_pending,
}
use reflowfy.Jobs.Manager
use reflowfy.Runner.{World}

abbrev pub key : Job → String
key j = j.job_id

unfoldable pub in_flight : String → World → ℕ
in_flight eid w = count (is_in_flight_of eid) w.jobs

-- What others do while jobs are sent: no job of the execution gets in flight, and ids stay unique.
abbrev pub IsCalm : String → World → World → Type 0
IsCalm eid w v = (in_flight eid v ≤ in_flight eid w) × IsKeyed key v.jobs

pub mark-in_flight :
    (eid id : String) (now : ℕ) (t : Manager.Table)
    → IsKeyed key t
    → count (is_in_flight_of eid) (mark_job_dispatched now id t) ≤ count (is_in_flight_of eid) t + 1
unfolding mark_job_dispatched
mark-in_flight eid id now t k =
    let t' =
      update (λ j. j.job_id == id) (λ j. record j { dispatched_at = some now; updated_at = now })
        t in
    let same : count (is_in_flight_of eid) t' ≡ count (is_in_flight_of eid) t =
      count-update_same (is_in_flight_of eid) (λ j. j.job_id == id) _ (λ j h. refl) t in
    omega (
      arith,
      same,
      count-update_keyed key (is_in_flight_of eid) id (λ j. j.state == JobState.pending)
          (λ j. record j { state = JobState.dispatched; updated_at = now }) t'
          (update-IsKeyed key (λ j. j.job_id == id) _ (λ j. refl) t k),
    )

pub mark-IsKeyed :
    (id : String) (now : ℕ) (t : Manager.Table)
    → IsKeyed key t
    → IsKeyed key (mark_job_dispatched now id t)
unfolding mark_job_dispatched
mark-IsKeyed id now t k =
    update-IsKeyed key (at_key key id (λ j. j.state == JobState.pending)) _ (λ j. refl) _
      (update-IsKeyed key (λ j. j.job_id == id) _ (λ j. refl) t k)

pub fail-in_flight :
    (eid id reason : String) (now : ℕ) (t : Manager.Table)
    → count
        (is_in_flight_of eid)
        (update_job_state now id JobState.failed none (some reason) none t).1
      ≤ count (is_in_flight_of eid) t
unfolding update_job_state
fail-in_flight eid id reason now t =
    count-update_le (is_in_flight_of eid) (λ j. j.job_id == id) _ (λ j h k. ground arith) t

pub fail-IsKeyed :
    (id reason : String) (now : ℕ) (t : Manager.Table)
    → IsKeyed key t
    → IsKeyed key (update_job_state now id JobState.failed none (some reason) none t).1
unfolding update_job_state
fail-IsKeyed id reason now t k = update-IsKeyed key (λ j. j.job_id == id) _ (λ j. refl) t k

pub sweep-in_flight :
    (l : Leases) (now : ℕ) (eid : String) (t : Manager.Table)
    → count (is_in_flight_of eid) (reclaim_expired_leases l now eid t).1
      ≤ count (is_in_flight_of eid) t
unfolding reclaim_expired_leases
sweep-in_flight l now eid t = omega (
  arith,
  count-update_le (is_in_flight_of eid) (is_stale_dispatched l now eid) (back_to_pending now)
      (λ j h k. ground arith)
      (update (is_stale_running l now eid) (back_to_pending now)
        (update (is_exhausted l now eid) (fail_lost l now) t)),
  count-update_le (is_in_flight_of eid) (is_stale_running l now eid) (back_to_pending now)
      (λ j h k. ground arith) (update (is_exhausted l now eid) (fail_lost l now) t),
  count-update_le (is_in_flight_of eid) (is_exhausted l now eid) (fail_lost l now)
      (λ j h k. ground arith) t,
)

pub sweep-IsKeyed :
    (l : Leases) (now : ℕ) (eid : String) (t : Manager.Table)
    → IsKeyed key t
    → IsKeyed key (reclaim_expired_leases l now eid t).1
unfolding reclaim_expired_leases
sweep-IsKeyed l now eid t k =
    update-IsKeyed key (is_stale_dispatched l now eid) (back_to_pending now) (λ j. refl) _
      (update-IsKeyed key (is_stale_running l now eid) (back_to_pending now) (λ j. refl) _
        (update-IsKeyed key (is_exhausted l now eid) (fail_lost l now) (λ j. refl) t k))

pub counted_in_flight :
    (eid : String) (t : Manager.Table)
    → (get_job_counts eid t).dispatched + (get_job_counts eid t).running
      ≡ count (is_in_flight_of eid) t
unfolding get_job_counts count select
counted_in_flight eid [] = refl
counted_in_flight eid (j ∷ t) = ground (arith, counted_in_flight eid t)
