-- ===== src/Jobs/Attempts/Starts.antt =====
-- The starts of a job, counted at the answers of `_claim_job` (reflowfy/worker/executor.py), against
-- JOB_MAX_ATTEMPTS of reflowfy/reflow_manager/job_manager.py.
use reflowfy.Prelude.{
  ℕ, ◌+◌, ◌≤◌, ◌<◌, String, true, false, Option, none, some, [], ◌∷◌, if◌then◌else◌, ◌==◌,
  string_eq, eq_of_==, ◌≡◌, arith, All, Bool-cases, inl, inr,
}
use reflowfy.Prelude.Sql.{Rows, Rows-update, Rows-map, Rows-refl, update, update-update, nil, cons}
use reflowfy.Jobs.{Job, JobState, is_unstarted}
use reflowfy.Jobs.Manager.{
  Table, Leases, mark_job_dispatched, cancel_unstarted_jobs, update_job_state, sweep_row,
  sweep_table,
}
use reflowfy.Jobs.Steps.{
  Step, Run, dispatch, unsendable, claim, beat, finish, sweep, stop, retry, restart, here, next,
}
use reflowfy.Jobs.Worker.{
  claim_job, claim_table, heartbeat_job, update_job_in_db, final_state, is_claimable, start_job,
}
use reflowfy.Jobs.Claims.{IsKeyed, Rows-IsKeyed, state_of, answer, claim-answer}
use reflowfy.Jobs.Attempts.{IsCapped, IsDistributed, Run-IsCapped}

-- The column of a job's row; 0 without a row.
abbrev pub attempts_of : String → Table → ℕ
attempts_of id [] = 0
attempts_of id (j ∷ t) = let rest = attempts_of id t in if j.job_id == id then j.attempts else rest

-- The delivery runs a job that has a row: no state is there that blocks it.
abbrev runs_it : (blocked row : Option JobState) → ℕ
runs_it none (some s) = 1
runs_it _ _ = 0

-- Whether a statement is a claim of this job that, with the database reachable, is told to run it.
abbrev started : String → (t u : Table) → Step t u → ℕ
started id _ _ (Step.claim true now i t) =
    let n = runs_it (claim_job true now i t).0 (state_of i t) in if i == id then n else 0
started id _ _ _ = 0

abbrev pub starts : {P : (t u : Table) → Step t u → Type 0} {t u : Table} → String → Run P t u → ℕ
starts id here = 0
starts id (next r s p) = starts id r + started id _ _ s

-- The same job, with no fewer attempts.
record Grows (j k : Job) : Type 0 where
  same_job : k.job_id ≡ j.job_id
  attempts : j.attempts ≤ k.attempts

Grows-refl : (j : Job) → Grows j j
Grows-refl j = ground arith

sweep_row-Grows : (l : Leases) (now : ℕ) (eid : String) (j : Job) → Grows j (sweep_row l now eid j)
unfolding sweep_row
sweep_row-Grows l now eid j = ground arith

step-Grows : (cap : ℕ) {t u : Table} (s : Step t u) → IsDistributed cap t u s → Rows Grows t u
unfolding update_job_state heartbeat_job cancel_unstarted_jobs mark_job_dispatched
step-Grows cap (dispatch now id t) d = rw update-update (Rows-map Grows _ (λ j. ground arith) t)
step-Grows cap (unsendable now id reason t) d =
    Rows-update _ Grows _ Grows-refl (λ j p. ground arith) t
step-Grows cap (claim false now id t) d = unfold claim_job in Rows-refl Grows Grows-refl t
step-Grows cap (claim true now id t) d =
    rw claim_table (Rows-update _ Grows _ Grows-refl (λ j p. ground arith) t)
step-Grows cap (beat now id t) d = Rows-update _ Grows _ Grows-refl (λ j p. ground arith) t
step-Grows cap (finish false now id s t) d = unfold update_job_in_db in Rows-refl Grows Grows-refl t
step-Grows cap (finish true now id s t) d =
    unfold update_job_in_db final_state in Rows-update _ Grows _ Grows-refl (λ j p. ground arith) t
step-Grows cap (sweep l now eid t) d =
    rw sweep_table (Rows-map Grows (sweep_row l now eid) (sweep_row-Grows l now eid) t)
step-Grows cap (stop now eid t) d = Rows-update _ Grows _ Grows-refl (λ j p. ground arith) t
step-Grows cap (retry contains now eid text t) d = absurd d
step-Grows cap (restart now eid t) d = absurd d

Rows-attempts_of :
    (id : String) {t u : Table} → Rows Grows t u → attempts_of id t ≤ attempts_of id u
Rows-attempts_of id nil = omega arith
Rows-attempts_of id (cons {x = x} r rs) = elim (Bool-cases (x.job_id == id)) [
  | inl e ↦ rw (r.same_job, e) r.attempts
  | inr e ↦ rw (r.same_job, e) (Rows-attempts_of id rs)
]

-- A claim that is told to run its job counts it in the row.
claim-attempts_of :
    (now : ℕ) (id : String) (t : Table)
    → attempts_of id t + runs_it (answer (state_of id t)) (state_of id t)
      ≤ attempts_of id (update (is_claimable id) (start_job now) t)
unfolding update
claim-attempts_of now id [] = omega arith
claim-attempts_of now id (j ∷ t) = elim (Bool-cases (j.job_id == id)) [
  | inl e ↦ elim (Bool-cases (is_unstarted j.state)) [ inl s ↦ ground arith | inr s ↦ ground arith ]
  | inr e ↦ ground (arith, claim-attempts_of now id t)
]

step-counts :
    (most : ℕ) (id : String) {t u : Table} (s : Step t u)
    → IsDistributed most t u s
    → IsKeyed t
    → attempts_of id t + started id t u s ≤ attempts_of id u
step-counts most id {t} (claim true now i _) d k =
    let grown = Rows-attempts_of id (step-Grows most (claim true now i t) d) in
    elim (Bool-cases (i == id)) [
      | inr e ↦ rw e (omega (arith, grown))
      | inl e ↦
          rw (e, eq_of_== i id e, claim-answer now id t k, claim_table) (claim-attempts_of now id t)
    ]
step-counts most id (claim false now i t) d k =
    omega (arith, Rows-attempts_of id (step-Grows most (claim false now i t) d))
step-counts most id (dispatch now i t) d k =
    omega (arith, Rows-attempts_of id (step-Grows most (dispatch now i t) d))
step-counts most id (unsendable now i reason t) d k =
    omega (arith, Rows-attempts_of id (step-Grows most (unsendable now i reason t) d))
step-counts most id (beat now i t) d k =
    omega (arith, Rows-attempts_of id (step-Grows most (beat now i t) d))
step-counts most id (finish b now i s t) d k =
    omega (arith, Rows-attempts_of id (step-Grows most (finish b now i s t) d))
step-counts most id (sweep l now eid t) d k =
    omega (arith, Rows-attempts_of id (step-Grows most (sweep l now eid t) d))
step-counts most id (stop now eid t) d k =
    omega (arith, Rows-attempts_of id (step-Grows most (stop now eid t) d))
step-counts most id (retry contains now eid text t) d k = absurd d
step-counts most id (restart now eid t) d k = absurd d

Run-IsKeyed : (most : ℕ) {t u : Table} → Run (IsDistributed most) t u → IsKeyed t → IsKeyed u
Run-IsKeyed most here k = k
Run-IsKeyed most (next r s d) k =
    Rows-IsKeyed Grows (λ x y g. g.same_job) (step-Grows most s d) (Run-IsKeyed most r k)

run-counts :
    (most : ℕ) (id : String) {t u : Table} (r : Run (IsDistributed most) t u)
    → IsKeyed t
    → attempts_of id t + starts id r ≤ attempts_of id u
run-counts most id here k = omega arith
run-counts most id (next r s d) k =
    omega (arith, run-counts most id r k, step-counts most id s d (Run-IsKeyed most r k))

capped : (most : ℕ) (id : String) (t : Table) → All (IsCapped most) t → attempts_of id t ≤ most
capped most id [] h = omega arith
capped most id (j ∷ t) h = elim (Bool-cases (j.job_id == id)) [
  | inl e ↦ rw e h.0.bounded
  | inr e ↦ rw e (capped most id t h.1)
]

-- However the statements of a distributed run interleave, with no retry among them, the claims that
-- are told to run a job, made with the database reachable while the job has a row, are together with
-- the attempts that its row had before the run no more than JOB_MAX_ATTEMPTS; if JOB_MAX_ATTEMPTS is
-- positive, and at the beginning no row has more attempts and each that waits to be started has
-- fewer. A delivery that runs its job unclaimed, the database unreachable, is not counted.
pub starts_capped :
    (most : ℕ) (id : String) {t u : Table}
    → 0 < most
    → IsKeyed t
    → All (IsCapped most) t
    → (r : Run (IsDistributed most) t u) → attempts_of id t + starts id r ≤ most
starts_capped most id {u = u} pos k h r =
    omega (arith, run-counts most id r k, capped most id u (Run-IsCapped most pos r h))
