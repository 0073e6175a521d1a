-- ===== src/Runner/Window.antt =====
-- The window of jobs in flight: `_drive_step` and `_send_jobs` of
-- reflowfy/reflow_manager/pipeline_runner.py.
use reflowfy.Prelude.{
  ℕ, ◌+◌, ◌-◌, ◌≤◌, min, max, String, Bool, true, false, not, ◌&&◌, Option, none, some, List, [],
  ◌∷◌, if◌then◌else◌, ◌==◌, nat_eq, string_eq, arith, length, length-take, Bool-cases, inl, inr,
  ltb, leb,
}
use reflowfy.Prelude.Sql.{count, select, order_by}
use reflowfy.Prelude.Keyed.{IsKeyed}
use reflowfy.Jobs.{Job, JobState, state_eq}
use reflowfy.Jobs.Manager.{
  queued_before, is_pending_of, get_job_counts, mark_job_dispatched, update_job_state,
  get_pending_jobs, reclaim_expired_leases, Leases, is_in_flight_of, is_stale_dispatched,
  is_stale_running, is_exhausted, fail_lost, back_to_pending,
}
use reflowfy.Jobs.Manager
use reflowfy.Executions.{heartbeat_driver}
use reflowfy.Dispatch.{Port, kafka_loop, dispatch_jobs_batch}
use reflowfy.Dispatch.Order.{Sent-cases}
use reflowfy.Runner.Flight.{
  key, in_flight, IsCalm, mark-in_flight, mark-IsKeyed, fail-in_flight, fail-IsKeyed,
  sweep-in_flight, sweep-IsKeyed, counted_in_flight,
}
use reflowfy.Runner.{
  World, Counts, Limits, sender, send_jobs, drive_step, settle_or_send, sweep_if_due,
  sync_counts_from_db, finalize_execution_state,
}

if_holds {ℓ κ} :
    {A : Type ℓ} (P : A → Type κ) (b : Bool) (x y : A) → P x → P y → P (if b then x else y)
if_holds P true x y hx hy = hx
if_holds P false x y hx hy = hy

module _ (eid : String) (env : Port Job World)
    (stop_calm : (c : Bool) (w : World) → IsKeyed key w.jobs → IsCalm eid w (env.should_stop c w).1)
    (acquire_calm : (w : World) → IsKeyed key w.jobs → IsCalm eid w (env.acquire w).1)
    (send_calm : (j : Job) (w : World) → IsKeyed key w.jobs → IsCalm eid w (env.send j w).1) where
  Grown : ℕ → World → World → Type 0
  Grown n w v = in_flight eid v ≤ in_flight eid w + n

  loop-Grown :
      (now : ℕ) (reason : String) (jobs : List Job) (n : ℕ) (w : World)
      → IsKeyed key w.jobs
      → Grown (length jobs) w (kafka_loop (sender env now reason) jobs n w).1
  unfolding kafka_loop in_flight Grown
  loop-Grown now reason [] n w k = omega arith
  loop-Grown now reason (job ∷ jobs) n w k =
      let (stop, w1) = env.should_stop true w in
      let (token, w2) = env.acquire w1 in
      let (stop_now, w3) = env.should_stop false w2 in
      let (result, w4) = env.send job w3 in
      let c1 = stop_calm true w k in
      let c2 = acquire_calm w1 c1.1 in
      let c3 = stop_calm false w2 c2.1 in
      let c4 = send_calm job w3 c3.1 in
      let marked = mark-in_flight eid job.job_id now w4.jobs c4.1 in
      let failed = fail-in_flight eid job.job_id reason now w4.jobs in
      elim (Bool-cases stop) [
        | inl a ↦ rw a (omega (arith, c1.0))
        | inr a ↦ elim (Bool-cases token) [
          | inr b ↦ rw (a, b) (omega (arith, c1.0, c2.0))
          | inl b ↦ elim (Bool-cases stop_now) [
            | inl c ↦ rw (a, b, c) (omega (arith, c1.0, c2.0, c3.0))
            | inr c ↦ elim (Sent-cases result) [
              | inl d ↦
                  rw (a, b, c, d)
                    (omega (
                      arith,
                      c1.0,
                      c2.0,
                      c3.0,
                      c4.0,
                      marked,
                      loop-Grown now reason jobs (n + 1)
                          (record w4 { jobs = mark_job_dispatched now job.job_id w4.jobs })
                          (mark-IsKeyed job.job_id now w4.jobs c4.1),
                    ))
              | inr (inl d) ↦
                  rw (a, b, c, d)
                    (omega (
                      arith,
                      c1.0,
                      c2.0,
                      c3.0,
                      c4.0,
                      failed,
                      loop-Grown now reason jobs n
                          (record w4 {
                            jobs =
                                (update_job_state now job.job_id JobState.failed none (some reason)
                                  none w4.jobs).1;
                          })
                          (fail-IsKeyed job.job_id reason now w4.jobs c4.1),
                    ))
              | inr (inr d) ↦ rw (a, b, c, d) (omega (arith, c1.0, c2.0, c3.0, c4.0))
            ]
          ]
        ]
      ]

  grown :
      (now : ℕ) (reason : String) (jobs : List Job) (w : World)
      → IsKeyed key w.jobs
      → count (is_in_flight_of eid) (kafka_loop (sender env now reason) jobs 0 w).1.jobs
        ≤ count (is_in_flight_of eid) w.jobs + length jobs
  unfolding Grown in_flight
  grown now reason jobs w k = loop-Grown now reason jobs 0 w k

  batch_size : (n : ℕ) (t : Manager.Table) → length (get_pending_jobs eid n t) ≤ n
  unfolding get_pending_jobs
  batch_size n t =
      omega (arith, length-take n (order_by queued_before (select (is_pending_of eid) t)))

  settle-in_flight :
      (l : Limits) (now : ℕ) (reason : String) (v : World)
      → IsKeyed key v.jobs
      → in_flight eid (settle_or_send l env now reason eid v).1
        ≤ max l.max_in_flight (in_flight eid v)
  unfolding settle_or_send send_jobs dispatch_jobs_batch sync_counts_from_db
      finalize_execution_state in_flight
  settle-in_flight l now reason v k =
      let c = get_job_counts eid v.jobs in
      let free_slots = l.max_in_flight - (c.dispatched + c.running) in
      let bound = max l.max_in_flight (count (is_in_flight_of eid) v.jobs) in
      let Fits : Option Counts × World → Type 0 =
        λ r. count (is_in_flight_of eid) r.1.jobs ≤ bound in
      if_holds Fits (c.pending == 0 && (c.dispatched + c.running) == 0) _ _ (omega arith) (
        if_holds Fits (not (c.pending == 0) && ltb 0 free_slots) _ _
          (omega (
            arith,
            grown now reason (get_pending_jobs eid (min free_slots l.fetch_limit) v.jobs) v k,
            batch_size (min free_slots l.fetch_limit) v.jobs,
            counted_in_flight eid v.jobs,
          ))
          (omega arith))

  sweep_if_due-IsCalm :
      (l : Limits) (now checked : ℕ) (w : World)
      → IsKeyed key w.jobs
      → IsCalm eid w (sweep_if_due l now eid checked w).1
  unfolding sweep_if_due in_flight
  sweep_if_due-IsCalm l now checked w k =
      if_holds
        (λ (r : ℕ × World).
          (count (is_in_flight_of eid) r.1.jobs ≤ count (is_in_flight_of eid) w.jobs)
          × IsKeyed key r.1.jobs)
        (leb l.check_interval (now - checked)) _ _
        (sweep-in_flight l.leases now eid w.jobs, sweep-IsKeyed l.leases now eid w.jobs k)
        (omega arith, k)

  -- A pass of the drive loop takes the jobs in flight over MAX_IN_FLIGHT_JOBS in no case: there are at
  -- most so many after it, or at most as many as before it. Ids are unique, and while the jobs are
  -- sent the rest of the world puts none of the execution in flight.
  pub drive_step-in_flight :
      (l : Limits) (now : ℕ) (reason driver : String) (checked : ℕ) (w : World)
      → IsKeyed key w.jobs
      → in_flight eid (drive_step l env now reason eid driver checked w).2
        ≤ max l.max_in_flight (in_flight eid w)
  unfolding drive_step sync_counts_from_db in_flight
  drive_step-in_flight l now reason driver checked w k =
      let (alive, executions) = heartbeat_driver now eid driver w.executions in
      let w1 = record w { executions = executions } in
      let (checked', w2) = sweep_if_due l now eid checked w1 in
      let calm = sweep_if_due-IsCalm l now checked w1 k in
      let bound = max l.max_in_flight (in_flight eid w) in
      let stays : in_flight eid w ≤ bound = omega arith in
      let goes : in_flight eid (settle_or_send l env now reason eid w2).1 ≤ bound =
        omega (arith, settle-in_flight l now reason w2 calm.1, calm.0) in
      if_holds
        (λ (r : Option Counts × ℕ × World).
          in_flight eid r.2 ≤ max l.max_in_flight (in_flight eid w))
        _ _ _ stays goes
