-- ===== src/Runner/Rows.antt =====
-- The rows of a plan and their ids: `_plan_and_dispatch` of
-- reflowfy/reflow_manager/pipeline_runner.py.
use reflowfy.Prelude.{
  ℕ, ◌+◌, ◌≤◌, ◌<◌, String, false, none, some, List, [], ◌∷◌, ◌++◌, map, length, ◌≡◌, refl, sym, ap,
  ◌∙◌, arith, chunks, chunks-append, chunks_one, chunks_nil, mem, mem-append, IsDistinct, string_eq,
}
use mathlib.Core.List.{append-nil, append_assoc, map-append}
use reflowfy.Prelude.Sql.{any}
use reflowfy.Jobs.{Job, JobState}
use reflowfy.Jobs.Manager.{JobRow, new_job, create_jobs, has_job, cancel_unstarted_jobs}
use reflowfy.Jobs.Manager
use reflowfy.Runner.{Slice, job_row}

abbrev pub ids : Manager.Table → List String
ids t = map (λ j. j.job_id) t

-- The row of a slice, and the job that it is saved as.
abbrev pub planned_row : String → ℕ → Slice → JobRow
planned_row eid batch s = record {
  execution_id = eid;
  job_id = s.job_id;
  job_payload = s.payload batch;
  batch_number = batch;
}

abbrev pub planned_job : ℕ → JobRow → Job
planned_job now r = record {
  job_id = r.job_id;
  execution_id = r.execution_id;
  job_payload = r.job_payload;
  batch_number = some r.batch_number;
  state = JobState.pending;
  attempts = 0;
  processed_records = 0;
  error_message = none;
  error_traceback = none;
  stats = none;
  created_at = now;
  updated_at = now;
  dispatched_at = none;
  completed_at = none;
}

-- The rows of a plan: its batches one after another, numbered from `batch` on.
abbrev pub numbered : String → ℕ → List (List Slice) → List JobRow
numbered eid batch [] = []
numbered eid batch (c ∷ cs) = map (planned_row eid batch) c ++ numbered eid (batch + 1) cs

has_job-mem : (id : String) (t : Manager.Table) → has_job id t ≡ mem id (ids t)
unfolding has_job any
has_job-mem id [] = refl
has_job-mem id (j ∷ t) = ground (arith, has_job-mem id t)

IsDistinct-middle :
    (x : String) (xs ys : List String) → IsDistinct (xs ++ x ∷ ys) → mem x xs ≡ false
IsDistinct-middle x [] ys d = refl
IsDistinct-middle x (y ∷ xs) ys d = ground (
  arith,
  rw (mem-append y xs (x ∷ ys)) at (d.0),
  IsDistinct-middle x xs ys d.1,
  string_eq.decides x y,
  string_eq.decides y x,
)

ids_snoc :
    (t : Manager.Table) (j : Job) (ys : List String)
    → ids (t ++ j ∷ []) ++ ys ≡ ids t ++ j.job_id ∷ ys
ids_snoc [] j ys = refl
ids_snoc (x ∷ t) j ys = ap (◌∷◌ x.job_id) (ids_snoc t j ys)

create_jobs_all :
    (now : ℕ) (rows : List JobRow) (t : Manager.Table)
    → IsDistinct (ids t ++ map (λ r. r.job_id) rows)
    → create_jobs now rows t ≡ some (t ++ map (new_job now) rows)
unfolding create_jobs
create_jobs_all now [] t d = ap some (sym (append-nil t))
create_jobs_all now (r ∷ rows) t d =
    let fresh : has_job r.job_id t ≡ false =
      has_job-mem r.job_id t ∙ IsDistinct-middle r.job_id (ids t) (map (λ r. r.job_id) rows) d in
    rw fresh (
      create_jobs_all now rows (t ++ new_job now r ∷ [])
        (rw (ids_snoc t (new_job now r) (map (λ r. r.job_id) rows)) d)
      ∙ ap some (append_assoc t (new_job now r ∷ []) (map (new_job now) rows)))

-- The chunks of a list whose first chunk is full, and of one that fills no chunk.
pub chunks_full :
    (size : ℕ) (pre ss : List Slice)
    → 1 ≤ size
    → length pre ≡ size
    → chunks size (pre ++ ss) ≡ pre ∷ chunks size ss
chunks_full size pre ss s h = rw (sym h) (chunks-append pre ss (omega arith))

pub numbered_last :
    (eid : String) (size batch : ℕ) (pre : List Slice)
    → length pre < size
    → numbered eid batch (chunks size pre) ≡ map (job_row eid batch) pre
numbered_last eid size batch [] h = rw chunks_nil refl
numbered_last eid size batch (x ∷ pre) h =
    ap (numbered eid batch) (chunks_one size x pre (omega arith))
    ∙ append-nil (map (job_row eid batch) (x ∷ pre))

abbrev pub Looked : Slice → Type 0
Looked s = s.aborted ≡ false

abbrev pub slice_ids : List Slice → List String
slice_ids slices = map (λ s. s.job_id) slices

IsDistinct-prefix : (xs ys : List String) → IsDistinct (xs ++ ys) → IsDistinct xs
IsDistinct-prefix [] ys d = tt
IsDistinct-prefix (x ∷ xs) ys d =
    (ground (arith, rw (mem-append x xs ys) at (d.0)), IsDistinct-prefix xs ys d.1)

job_id-rows :
    (eid : String) (batch : ℕ) (pre : List Slice)
    → map (λ r. r.job_id) (map (job_row eid batch) pre) ≡ slice_ids pre
job_id-rows eid batch [] = refl
job_id-rows eid batch (s ∷ pre) = ap (◌∷◌ s.job_id) (job_id-rows eid batch pre)

ids-rows : (now : ℕ) (rows : List JobRow) → ids (map (new_job now) rows) ≡ map (λ r. r.job_id) rows
ids-rows now [] = refl
ids-rows now (r ∷ rows) = ap (◌∷◌ r.job_id) (ids-rows now rows)

module _ (eid : String) (now batch : ℕ) (pre ss : List Slice) (t : Manager.Table) where
  abbrev buffered : List JobRow
  buffered = map (job_row eid batch) pre

  split_ids :
      IsDistinct (ids t ++ slice_ids (pre ++ ss))
      → IsDistinct ((ids t ++ slice_ids pre) ++ slice_ids ss)
  split_ids d =
      rw
        (
          append_assoc (ids t) (slice_ids pre) (slice_ids ss),
          sym (map-append (λ s. s.job_id) pre ss),
        )
        d

  pub created :
      IsDistinct (ids t ++ slice_ids (pre ++ ss))
      → create_jobs now buffered t ≡ some (t ++ map (new_job now) buffered)
  created d = create_jobs_all now buffered t (
      rw (job_id-rows eid batch pre)
        (IsDistinct-prefix (ids t ++ slice_ids pre) (slice_ids ss) (split_ids d)))

  pub rest-IsDistinct :
      IsDistinct (ids t ++ slice_ids (pre ++ ss))
      → IsDistinct (ids (t ++ map (new_job now) buffered) ++ slice_ids ss)
  rest-IsDistinct d =
      rw
        (
          map-append (λ j. j.job_id) t (map (new_job now) buffered),
          ids-rows now buffered,
          job_id-rows eid batch pre,
        )
        (split_ids d)
