-- ===== src/Dlq/Retries.antt =====
-- The life of a dead letter: `_handle_job_failure` of reflowfy/reflow_manager/dlq_scheduler.py.
use reflowfy.Prelude.{
  ℕ, suc, ◌+◌, ◌*◌, ◌≤◌, ◌<◌, String, true, false, some, List, [], ◌∷◌, ◌++◌, if◌then◌else◌, nat_eq,
  leb, ◌≡◌, refl, arith, Bool-cases, inl, inr, ==_refl, length,
}
use reflowfy.Prelude.Sql.{update, delete}
use reflowfy.Dlq.{
  DlqJob, DlqStatus, DlqJobArchive, Store, archived, archive_job, handle_job_failure,
  calculate_backoff,
}

-- Failures at the given times, one after another, of the job that is alone in its table.
abbrev pub Failure : Type 0
Failure = ℕ × String

unfoldable pub failures : List Failure → Store → Store
unfolding handle_job_failure
failures [] s = s
failures (f ∷ fs) s = elim s.jobs [
  | [] ↦ s
  | j ∷ jobs ↦ failures fs (handle_job_failure f.0 f.1 j s)
]

-- What has become of the row `j` of a table, and of the archive, after `n` failures.
pub data Life (j : DlqJob) (n : ℕ) (archive : List DlqJobArchive) (s : Store) : Type 0 where
  waiting :
      (k : DlqJob)
      → s.jobs ≡ k ∷ []
      → s.archive ≡ archive
      → k.id ≡ j.id
      → k.job_payload ≡ j.job_payload
      → k.retry_count ≡ j.retry_count + n
      → k.retry_count < j.max_retries
      → k.max_retries ≡ j.max_retries
      → Life j n archive s
  gone :
      (a : DlqJobArchive)
      → s.jobs ≡ []
      → s.archive ≡ archive ++ a ∷ []
      → a.id ≡ j.id
      → a.job_payload ≡ j.job_payload
      → a.retry_count ≡ j.max_retries
      → j.max_retries ≤ j.retry_count + n
      → Life j n archive s

abbrev pub again : ℕ → String → DlqJob → DlqJob
again now error j = record j {
  retry_count = j.retry_count + 1;
  error_message = some error;
  scheduled_at = now + calculate_backoff (j.retry_count + 1) * 60000000;
  status = DlqStatus.pending;
}

fail_one :
    (now : ℕ) (error : String) (j : DlqJob) (archive : List DlqJobArchive)
    → handle_job_failure now error j (record { jobs = j ∷ []; archive = archive }) ≡ (
        if leb j.max_retries (j.retry_count + 1)
        then record {
          jobs = [];
          archive =
              archive
              ++ archived now
                  (record j { retry_count = j.retry_count + 1; error_message = some error })
                ∷ [];
        }
        else record { jobs = again now error j ∷ []; archive = archive })
unfolding handle_job_failure archive_job update delete
fail_one now error j archive = rw (==_refl j.id) refl

failures_none :
    (fs : List Failure) (archive : List DlqJobArchive)
    → failures fs (record { jobs = []; archive = archive })
      ≡ record { jobs = []; archive = archive }
unfolding failures
failures_none [] archive = refl
failures_none (f ∷ fs) archive = refl

last_retry : (r m : ℕ) → r < m → leb m (r + 1) ≡ true → r + 1 ≡ m
last_retry r m h l = ground arith

more_retries : (r m : ℕ) → leb m (r + 1) ≡ false → r + 1 < m
more_retries r m l = ground arith

Life-again :
    (now : ℕ) (error : String) (j : DlqJob) (n : ℕ) (archive : List DlqJobArchive) (s : Store)
    → Life (again now error j) n archive s
    → Life j (suc n) archive s
Life-again now error j n archive s (waiting k jobs old id payload count left most) =
    Life.waiting k jobs old id payload (omega (arith, count)) left most
Life-again now error j n archive s (gone a jobs new id payload count most) =
    Life.gone a jobs new id payload count (omega (arith, most))

-- A job that is alone in its table and has retries left: while it has failed fewer times than it has
-- retries left it waits in the table, with all its failures counted; from then on it is in the
-- archive, once, with max_retries counted, however often the dispatch fails.
pub failures-Life :
    (fs : List Failure) (j : DlqJob) (archive : List DlqJobArchive)
    → j.retry_count < j.max_retries
    → Life j (length fs) archive (failures fs (record { jobs = j ∷ []; archive = archive }))
unfolding failures
failures-Life [] j archive h = Life.waiting j refl refl refl refl (omega arith) h refl
failures-Life (f ∷ fs) j archive h = elim (Bool-cases (leb j.max_retries (j.retry_count + 1))) [
  | inl l ↦
      rw (fail_one f.0 f.1 j archive, l, failures_none fs)
        (Life.gone
          (archived f.0 (record j { retry_count = j.retry_count + 1; error_message = some f.1 }))
          refl refl refl refl (last_retry j.retry_count j.max_retries h l)
          (omega (arith, last_retry j.retry_count j.max_retries h l)))
  | inr l ↦
      rw (fail_one f.0 f.1 j archive, l)
        (Life-again f.0 f.1 j (length fs) archive _
          (failures-Life fs (again f.0 f.1 j) archive (more_retries j.retry_count j.max_retries l)))
]
