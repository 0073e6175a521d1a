-- ===== src/Dlq/Poll/View.antt =====
-- What the statements on dead letters do to the rows of one id in the table and in the archive:
-- reflowfy/reflow_manager/dlq_scheduler.py.
use reflowfy.Prelude.{
  ℕ, ◌+◌, String, Bool, true, false, List, [], ◌∷◌, ◌++◌, ◌⊎◌, inl, inr, ◌==◌, nat_eq, leb, ◌≡◌,
  refl, ap, Bool-cases, ==_refl,
}
use reflowfy.Prelude.Sql.{select}
use reflowfy.Prelude.Numbered.{
  select-append_ne, select-append_new, select-update_ne, select-update_self, select-delete_ne,
  select-delete_self,
}
use reflowfy.Dlq.{
  DlqStatus, DlqJob, DlqJobArchive, Store, has_id, take_up, mark_processing, archived, archive_job,
  handle_job_failure, fail_all, mark_completed,
}
use reflowfy.Dlq.Retries.{again}
use mathlib.Core.Option.{some}

abbrev pub archive_id : DlqJobArchive → ℕ
archive_id a = a.id

abbrev pub job_id : DlqJob → ℕ
job_id j = j.id

abbrev pub View : Type 0
View = List DlqJob × List DlqJobArchive

-- The rows of an id.
abbrev pub view : ℕ → Store → View
view i s = (select (has_id i) s.jobs, select (λ a. archive_id a == i) s.archive)

abbrev completed : ℕ → String → DlqJob → DlqJob
completed now eid j = record j {
  status = DlqStatus.completed;
  processed_at = some now;
  execution_id = some eid;
}

abbrev counted : String → DlqJob → DlqJob
counted error j = record j { retry_count = j.retry_count + 1; error_message = some error }

abbrev pub after_failure : (is_last : Bool) → ℕ → String → DlqJob → List DlqJobArchive → View
after_failure true now error j a = ([], a ++ archived now (counted error j) ∷ [])
after_failure false now error j a = (again now error j ∷ [], a)

-- What the outcome of a dispatch leaves of a job that was in it, with the archived rows of its id.
abbrev pub after : ℕ → String ⊎ String → DlqJob → List DlqJobArchive → View
after now (inr eid) j a = (completed now eid j ∷ [], a)
after now (inl error) j a = after_failure (leb j.max_retries (j.retry_count + 1)) now error j a

abbrev pub settle : ℕ → String ⊎ String → List DlqJob → Store → Store
settle now (inr eid) g s = mark_completed now eid g s
settle now (inl error) g s = fail_all now error g s

module _ (i : ℕ) where
  pub failure_ne :
      (now : ℕ) (error : String) (j : DlqJob) (s : Store)
      → (j.id == i) ≡ false
      → view i (handle_job_failure now error j s) ≡ view i s
  unfolding handle_job_failure archive_job
  failure_ne now error j s n = elim (Bool-cases (leb j.max_retries (j.retry_count + 1))) [
    | inl l ↦ rw l (
        rw
          (
            select-delete_ne job_id i j.id n s.jobs,
            select-append_ne archive_id i s.archive (archived now (counted error j)) n,
          )
          refl)
    | inr l ↦
        rw l (
          rw (select-update_ne job_id i j.id (λ old. again now error j) (λ x e. refl) n s.jobs)
            refl)
  ]

  pub complete_ne :
      (now : ℕ) (eid : String) (j : DlqJob) (s : Store)
      → (j.id == i) ≡ false
      → view i (mark_completed now eid (j ∷ []) s) ≡ view i s
  unfolding mark_completed
  complete_ne now eid j s n =
      rw (select-update_ne job_id i j.id (completed now eid) (λ x e. e) n s.jobs) refl

  pub take_up_ne :
      (j : DlqJob) (s : Store)
      → (j.id == i) ≡ false
      → view i (mark_processing (j ∷ []) s) ≡ view i s
  unfolding mark_processing
  take_up_ne j s n = rw (select-update_ne job_id i j.id take_up (λ x e. e) n s.jobs) refl

module _ (j : DlqJob) (a : List DlqJobArchive) (s : Store) (h : view j.id s ≡ (j ∷ [], a)) where
  jobs_of : select (has_id j.id) s.jobs ≡ j ∷ []
  jobs_of = ap (λ (v : View). v.0) h

  archive_of : select (λ x. archive_id x == j.id) s.archive ≡ a
  archive_of = ap (λ (v : View). v.1) h

  pub failure_self :
      (now : ℕ) (error : String)
      → view j.id (handle_job_failure now error j s)
        ≡ after_failure (leb j.max_retries (j.retry_count + 1)) now error j a
  unfolding handle_job_failure archive_job
  failure_self now error = elim (Bool-cases (leb j.max_retries (j.retry_count + 1))) [
    | inl l ↦ rw l (
        rw
          (
            select-delete_self job_id j.id s.jobs,
            select-append_new archive_id j.id s.archive (archived now (counted error j))
                (==_refl j.id),
            archive_of,
          )
          refl)
    | inr l ↦ rw l (
        rw
          (
            select-update_self job_id j.id (λ old. again now error j) (λ x e. refl) s.jobs,
            jobs_of,
            archive_of,
          )
          refl)
  ]

  pub complete_self :
      (now : ℕ) (eid : String)
      → view j.id (mark_completed now eid (j ∷ []) s) ≡ (completed now eid j ∷ [], a)
  unfolding mark_completed
  complete_self now eid =
      rw (select-update_self job_id j.id (completed now eid) (λ x e. e) s.jobs, jobs_of, archive_of)
        refl

  pub take_up_self : view j.id (mark_processing (j ∷ []) s) ≡ (take_up j ∷ [], a)
  unfolding mark_processing
  take_up_self =
      rw (select-update_self job_id j.id take_up (λ x e. e) s.jobs, jobs_of, archive_of) refl
