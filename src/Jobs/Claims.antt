-- ===== src/Jobs/Claims.antt =====
-- The claim that lets one delivery of a job run it: `_claim_job` of reflowfy/worker/executor.py.
use mathlib.Core.Option
use reflowfy.Prelude.{
  ℕ, String, Bool, true, false, Option, none, some, [], ◌∷◌, ◌≡◌, ◌≢◌, refl, arith, All, ◌==◌,
  string_eq, eq_of_==, Bool-cases, inl, inr, ◌∙◌, ap, not, if◌then◌else◌, nat_eq,
}
use reflowfy.Prelude.Sql.{
  Rows, Rows-update, Rows-map, Rows-refl, Rows-trans, update, count, select, first, update-update,
}
use reflowfy.Jobs.{Job, JobState, state_eq, is_unstarted}
use reflowfy.Jobs.Manager.{Table, mark_job_dispatched, cancel_unstarted_jobs, update_job_state}
use reflowfy.Jobs.Steps.{
  Step, Run, dispatch, unsendable, claim, beat, finish, sweep, stop, retry, restart, here, next,
}
use reflowfy.Prelude.Sql.{nil, cons}
use reflowfy.Jobs.Worker.{
  claim_job, claim_table, heartbeat_job, update_job_in_db, final_state, is_claimable, start_job,
}

-- The primary key: no two rows have one `job_id`.
abbrev pub IsKeyed : Table → Type 0
IsKeyed [] = Unit
IsKeyed (j ∷ t) = All (λ k. k.job_id ≢ j.job_id) t × IsKeyed t

-- The state of a job, if it has a row.
abbrev pub state_of : String → Table → Option JobState
state_of id [] = none
state_of id (j ∷ t) = let rest = state_of id t in if j.job_id == id then some j.state else rest

state_of-eq-first :
    (id : String) (t : Table)
    → Option.map (λ (j : Job). j.state) (first (select (λ j. j.job_id == id) t)) ≡ state_of id t
unfolding first select
state_of-eq-first id [] = refl
state_of-eq-first id (j ∷ t) = elim (Bool-cases (j.job_id == id)) [
  | inl h ↦ rw h
  | inr h ↦ rw h (state_of-eq-first id t)
]

state_of_absent : (id : String) (t : Table) → All (λ j. j.job_id ≢ id) t → state_of id t ≡ none
state_of_absent id [] h = refl
state_of_absent id (j ∷ t) h = elim (Bool-cases (j.job_id == id)) [
  | inl e ↦ absurd (h.0 (eq_of_== _ _ e))
  | inr e ↦ rw e (state_of_absent id t h.1)
]

-- How many rows a claim takes.
abbrev claimable : Option JobState → ℕ
claimable none = 0
claimable (some s) = if is_unstarted s then 1 else 0

count_claimable :
    (id : String) (t : Table) → IsKeyed t → count (is_claimable id) t ≡ claimable (state_of id t)
unfolding count
count_claimable id [] k = refl
count_claimable id (j ∷ t) k = elim (Bool-cases (j.job_id == id)) [
  | inl e ↦
      let gone : All (λ k. k.job_id ≢ id) t = rw (eq_of_== j.job_id id e) at k.0 in
      let none_left : count (is_claimable id) t ≡ 0 =
        count_claimable id t k.1 ∙ ap claimable (state_of_absent id t gone) in
      rw e (ground (arith, none_left))
  | inr e ↦ rw e (omega (arith, count_claimable id t k.1))
]

-- The answer of the claim: whether the delivery runs the job, or what blocks it.
abbrev pub answer : Option JobState → Option JobState
answer none = none
answer (some s) = if is_unstarted s then none else some s

-- With the database reachable, a delivery is told to run the job exactly when the job has no row
-- or no worker has started it; else it is told the state of the row.
pub claim-answer :
    (now : ℕ) (id : String) (t : Table)
    → IsKeyed t
    → (claim_job true now id t).0 ≡ answer (state_of id t)
unfolding claim_job
claim-answer now id t k = ground (arith, state_of-eq-first id t, count_claimable id t k)

-- Between two lease sweeps, with no retry and no restart: a started job stays started, and is not
-- started again.
record StaysStarted (j k : Job) : Type 0 where
  same_job : k.job_id ≡ j.job_id
  started : is_unstarted j.state ≡ false → is_unstarted k.state ≡ false
  attempts : is_unstarted j.state ≡ false → k.attempts ≡ j.attempts

StaysStarted-refl : (j : Job) → StaysStarted j j
StaysStarted-refl j = ground arith

abbrev pub IsQuiet : (t u : Table) → Step t u → Type 0
IsQuiet _ _ (Step.sweep _ _ _ _) = ⊥
IsQuiet _ _ (Step.retry _ _ _ _ _) = ⊥
IsQuiet _ _ (Step.restart _ _ _) = ⊥
IsQuiet _ _ _ = Unit

step-StaysStarted : {t u : Table} (s : Step t u) → IsQuiet t u s → Rows StaysStarted t u
unfolding update_job_state heartbeat_job cancel_unstarted_jobs mark_job_dispatched
step-StaysStarted (dispatch now id t) q =
    rw update-update (Rows-map StaysStarted _ (λ j. ground arith) t)
step-StaysStarted (unsendable now id reason t) q =
    Rows-update _ StaysStarted _ StaysStarted-refl (λ j p. ground arith) t
step-StaysStarted (claim false now id t) q =
    unfold claim_job in Rows-refl StaysStarted StaysStarted-refl t
step-StaysStarted (claim true now id t) q =
    rw claim_table (Rows-update _ StaysStarted _ StaysStarted-refl (λ j p. ground arith) t)
step-StaysStarted (beat now id t) q =
    Rows-update _ StaysStarted _ StaysStarted-refl (λ j p. ground arith) t
step-StaysStarted (finish false now id s t) q =
    unfold update_job_in_db in Rows-refl StaysStarted StaysStarted-refl t
step-StaysStarted (finish true now id s t) q =
    unfold update_job_in_db final_state in
    Rows-update _ StaysStarted _ StaysStarted-refl (λ j p. ground arith) t
step-StaysStarted (sweep l now eid t) q = absurd q
step-StaysStarted (stop now eid t) q =
    Rows-update _ StaysStarted _ StaysStarted-refl (λ j p. ground arith) t
step-StaysStarted (retry contains now eid text t) q = absurd q
step-StaysStarted (restart now eid t) q = absurd q

Run-StaysStarted : {t u : Table} → Run IsQuiet t u → Rows StaysStarted t u
Run-StaysStarted {t} here = Rows-refl StaysStarted StaysStarted-refl t
Run-StaysStarted (next r s q) =
    Rows-trans StaysStarted (λ x y z a b. ground arith) (Run-StaysStarted r) (step-StaysStarted s q)

-- Rows that keep their ids keep the primary key.
module _ (R : Job → Job → Type 0) (same : (j k : Job) → R j k → k.job_id ≡ j.job_id) where
  Rows-absent :
      (i : String) {t u : Table}
      → Rows R t u
      → All (λ j. j.job_id ≢ i) t
      → All (λ j. j.job_id ≢ i) u
  Rows-absent i nil h = tt
  Rows-absent i (cons r rs) h = (rw (same _ _ r) h.0, Rows-absent i rs h.1)

  pub Rows-IsKeyed : {t u : Table} → Rows R t u → IsKeyed t → IsKeyed u
  Rows-IsKeyed nil k = tt
  Rows-IsKeyed (cons r rs) k = (rw (same _ _ r) (Rows-absent _ rs k.0), Rows-IsKeyed rs k.1)

abbrev is_started : Option JobState → Bool
is_started none = false
is_started (some s) = not (is_unstarted s)

Rows-is_started :
    (id : String) {t u : Table}
    → Rows StaysStarted t u
    → is_started (state_of id t) ≡ true
    → is_started (state_of id u) ≡ true
Rows-is_started id nil h = h
Rows-is_started id (cons {x = x} {y = y} r rs) h = elim (Bool-cases (x.job_id == id)) [
  | inl e ↦ rw (r.same_job, e) (ground (arith, r.started))
  | inr e ↦ rw (r.same_job, e) (Rows-is_started id rs (rw e at h))
]

-- The claim marks its job started, if the job has a row.
update-is_started :
    (now : ℕ) (id : String) (t : Table)
    → state_of id t ≢ none
    → is_started (state_of id (update (is_claimable id) (start_job now) t)) ≡ true
unfolding update
update-is_started now id [] h = absurd (h refl)
update-is_started now id (j ∷ t) h = elim (Bool-cases (j.job_id == id)) [
  | inl e ↦ ground arith
  | inr e ↦ ground (arith, update-is_started now id t)
]

claim-is_started :
    (now : ℕ) (id : String) (t : Table)
    → state_of id t ≢ none
    → is_started (state_of id (claim_job true now id t).1) ≡ true
claim-is_started now id t h = rw claim_table (update-is_started now id t h)

not-answer-none : (o : Option JobState) → is_started o ≡ true → answer o ≢ none
not-answer-none none h = cc
not-answer-none (some s) h = ground arith

-- After a delivery has claimed a job that has a row, every later delivery with the database
-- reachable is turned away, whatever the workers and the dispatcher do in between, as long as no
-- lease sweep, retry or restart puts jobs back in the queue.
pub claim_exclusive :
    (now later : ℕ) (id : String) (t u : Table)
    → IsKeyed t
    → state_of id t ≢ none
    → Run IsQuiet (claim_job true now id t).1 u
    → (claim_job true later id u).0 ≢ none
claim_exclusive now later id t u k row r =
    rw (claim-answer later id u (Rows-IsKeyed StaysStarted (λ x y r. r.same_job) after k)) (
      not-answer-none (state_of id u)
        (Rows-is_started id (Run-StaysStarted r) (claim-is_started now id t row)))
  where
    after : Rows StaysStarted t u
    after =
        Rows-trans StaysStarted (λ x y z a b. ground arith)
          (step-StaysStarted (claim true now id t) tt) (Run-StaysStarted r)
