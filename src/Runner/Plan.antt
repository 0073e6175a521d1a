-- ===== src/Runner/Plan.antt =====
-- What planning saves: `_plan_and_dispatch` of reflowfy/reflow_manager/pipeline_runner.py.
use reflowfy.Prelude.{
  ℕ, ◌+◌, ◌*◌, ◌≤◌, ◌<◌, suc, String, Bool, false, none, some, List, [], ◌∷◌, ◌++◌, map, length,
  length-append, length-map, leb→le, if◌then◌else◌, leb, ◌≡◌, refl, sym, ap, ◌∙◌, Bool-cases, inl,
  inr, arith, All, chunks, IsDistinct, string_eq,
}
use mathlib.Core.Path.{subst}
use mathlib.Core.List.{append-nil, append_assoc, map-append}
use reflowfy.Jobs.Manager.{JobRow, new_job, create_jobs, has_job, cancel_unstarted_jobs}
use reflowfy.Jobs.Manager
use reflowfy.Runner.Rows.{
  planned_job, ids, numbered, slice_ids, Looked, chunks_full, numbered_last, created,
  rest-IsDistinct,
}
use reflowfy.Runner.{Slice, Planned, job_row, plan_loop, plan_jobs}

-- The table after the plan, of which `pre` is buffered and `slices` are to come.
abbrev after_plan : String → ℕ → ℕ → ℕ → List Slice → List Slice → Manager.Table → Manager.Table
after_plan eid size now batch pre slices t =
    t ++ map (new_job now) (numbered eid batch (chunks size (pre ++ slices)))

Saves : String → ℕ → ℕ → ℕ → List Slice → List Slice → ℕ → Manager.Table → Planned → Type 0
Saves eid size now batch pre slices n t r =
    (k : ℕ) × (r
      ≡ Planned.saved (n + length slices) (batch + k) (after_plan eid size now batch pre slices t))
    × (k * size ≤ length pre + length slices)
    × (length pre + length slices < k * size + size)

saved_same :
    {a a' b b' : ℕ} {t t' : Manager.Table}
    → a ≡ a'
    → b ≡ b'
    → t ≡ t'
    → Planned.saved a b t ≡ Planned.saved a' b' t'
saved_same ea eb et = cc (ea, eb, et)

length-snoc : (pre : List Slice) (s : Slice) → length (pre ++ s ∷ []) ≡ length pre + 1
length-snoc pre s = length-append pre (s ∷ [])

-- A slice that joins the buffer.
Saves-buffered :
    (eid : String) (size now batch : ℕ) (pre : List Slice) (s : Slice) (slices : List Slice) (n : ℕ)
    (t : Manager.Table) (r : Planned)
    → Saves eid size now batch (pre ++ s ∷ []) slices (n + 1) t r
    → Saves eid size now batch pre (s ∷ slices) n t r
unfolding Saves
Saves-buffered eid size now batch pre s slices n t r (k, e, low, high) = (
  k,
  e
      ∙ saved_same (omega arith) refl (
          ap (λ all. t ++ map (new_job now) (numbered eid batch (chunks size all)))
            (append_assoc pre (s ∷ []) slices)),
  omega (arith, length-snoc pre s),
  omega (arith, length-snoc pre s),
)

-- A buffer that is full and saved.
Saves-flushed :
    (eid : String) (size now batch : ℕ) (pre slices : List Slice) (n : ℕ) (t : Manager.Table)
    (r : Planned)
    → 1 ≤ size
    → length pre ≡ size
    → Saves eid size now
        (batch + 1)
        []
        slices
        n
        (t ++ map (new_job now) (map (job_row eid batch) pre))
        r
    → Saves eid size now batch pre slices n t r
unfolding Saves
Saves-flushed eid size now batch pre slices n t r s full (k, e, low, high) =
    let saved_now = map (job_row eid batch) pre in
    let later = numbered eid (batch + 1) (chunks size slices) in
    (
      suc k,
      e
          ∙ saved_same refl (omega arith) (
              append_assoc t (map (new_job now) saved_now) (map (new_job now) later)
              ∙ ap (λ rows. t ++ rows)
                  (sym (map-append (new_job now) saved_now later)
                    ∙ ap (λ all. map (new_job now) (numbered eid batch all))
                        (sym (chunks_full size pre slices s full)))),
      omega arith,
      omega arith,
    )

-- The rest of the loop where the buffer is full.
flush : String → ℕ → ℕ → List Slice → ℕ → List JobRow → ℕ → Manager.Table → Planned
flush eid size now slices batch rows n t = elim (create_jobs now rows t) [
  | none ↦ Planned.db_error
  | some u ↦ plan_loop eid size now slices (batch + 1) [] n u
]

if_false {ℓ} : {A : Type ℓ} (x y : A) (b : Bool) → b ≡ false → (if b then x else y) ≡ y
if_false x y b h = rw h refl

-- A slice whose look does not abort the plan.
plan_step :
    (eid : String) (size now batch : ℕ) (pre : List Slice) (s : Slice) (slices : List Slice) (n : ℕ)
    (t : Manager.Table)
    → s.aborted ≡ false
    → let rows = map (job_row eid batch) (pre ++ s ∷ []) in
      plan_loop eid size now (s ∷ slices) batch (map (job_row eid batch) pre) n t ≡ (
        if leb size (length rows)
        then flush eid size now slices batch rows (n + 1) t
        else plan_loop eid size now slices batch rows (n + 1) t)
unfolding plan_loop flush
plan_step eid size now batch pre s slices n t h =
    if_false _ _ s.aborted h
    ∙ ap
        (λ rows.
          if leb size (length rows)
          then flush eid size now slices batch rows (n + 1) t
          else plan_loop eid size now slices batch rows (n + 1) t)
        (sym (map-append (job_row eid batch) pre (s ∷ [])))

not_full : (size n m : ℕ) → leb size n ≡ false → n ≡ m → m < size
not_full size n m h e = ground arith

plan-Saves :
    (eid : String) (size now batch : ℕ) (pre slices : List Slice) (n : ℕ) (t : Manager.Table)
    → length pre < size
    → All Looked slices
    → IsDistinct (ids t ++ slice_ids (pre ++ slices))
    → Saves eid size now batch pre slices n t
        (plan_loop eid size now slices batch (map (job_row eid batch) pre) n t)
unfolding plan_loop Saves flush
plan-Saves eid size now batch pre [] n t h looked d = (
  0,
  rw (plan_loop, created eid now batch pre [] t d)
      (saved_same (omega arith) (omega arith) (
        ap (λ rows. t ++ map (new_job now) rows)
          (sym (numbered_last eid size batch pre h)
            ∙ ap (λ all. numbered eid batch (chunks size all)) (sym (append-nil pre))))),
  omega arith,
  omega arith,
)
plan-Saves eid size now batch pre (s ∷ slices) n t h looked d =
    let more = pre ++ s ∷ [] in
    let d' : IsDistinct (ids t ++ slice_ids (more ++ slices)) =
      rw (append_assoc pre (s ∷ []) slices) d in
    Saves-buffered eid size now batch pre s slices n t _ (
      subst (Saves eid size now batch more slices (n + 1) t)
        (sym (plan_step eid size now batch pre s slices n t looked.0))
        (elim (Bool-cases (leb size (length (map (job_row eid batch) more)))) [
          | inl full ↦
              rw (full, flush, created eid now batch more slices t d')
                (Saves-flushed eid size now batch more slices (n + 1) t _ (omega arith)
                  (omega (
                    arith,
                    leb→le size (length (map (job_row eid batch) more)) full,
                    length-map (job_row eid batch) more,
                    length-snoc pre s,
                  ))
                  (plan-Saves eid size now (batch + 1) [] slices (n + 1)
                    (t ++ map (new_job now) (map (job_row eid batch) more)) (omega arith) looked.1
                    (rest-IsDistinct eid now batch more slices t d')))
          | inr room ↦ rw room (
              plan-Saves eid size now batch more slices (n + 1) t
                (not_full size (length (map (job_row eid batch) more)) (length more) room
                  (length-map (job_row eid batch) more))
                looked.1 d')
        ]))

-- The plan of an execution that is not stopped while it is planned, with ids that no other job has:
-- all its jobs are saved, in the order of the plan, pending, in batches of `size` of which the last
-- may be smaller, numbered from 1. The job count is the number of jobs, and the number of batches
-- that is written to the log and to the jobs is one more than that of the full batches.
pub plan_jobs_saved :
    (eid : String) (size now : ℕ) (slices : List Slice) (t : Manager.Table)
    → 1 ≤ size
    → All Looked slices
    → IsDistinct (ids t ++ slice_ids slices)
    → (k : ℕ) × (plan_jobs eid size now slices t
        ≡ Planned.saved
            (length slices)
            (1 + k)
            (t ++ map (planned_job now) (numbered eid 1 (chunks size slices))))
      × (k * size ≤ length slices)
      × (length slices < k * size + size)
unfolding plan_jobs Saves
plan_jobs_saved eid size now slices t s looked d =
    let (k, e, low, high) = plan-Saves eid size now 1 [] slices 0 t (omega arith) looked d in
    (k, e ∙ saved_same (omega arith) refl refl, omega arith, omega arith)
