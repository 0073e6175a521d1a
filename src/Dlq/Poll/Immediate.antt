-- ===== src/Dlq/Poll/Immediate.antt =====
-- The dispatch of dead letters on demand: `process_job_immediately` and `process_pipeline_immediately`
-- of reflowfy/reflow_manager/dlq_scheduler.py.
use reflowfy.Prelude.{
  ℕ, ◌+◌, leb, String, Bool, true, false, Option, none, some, List, [], ◌∷◌, ◌++◌, map, ◌⊎◌, inl,
  inr, ◌==◌, nat_eq, ◌≡◌, ◌≢◌, refl, sym, ap, ◌∙◌, Bool-cases, All, eq_of_==,
}
use mathlib.Core.List.{append-nil, append_assoc, cons-ne-nil}
use reflowfy.Prelude.Sql.{select, first}
use reflowfy.Dlq.{
  DlqJob, DlqJobArchive, Store, has_id, take_up, mark_processing, group_by_params, process_groups,
  process_pipeline_jobs,
}
use reflowfy.Dlq.Poll.{
  Dispatch, Answer, Progress, is_pending, is_taken, dispatched_or, dispatch_groups,
  dispatched_answer, process_job_immediately, process_pipeline_immediately,
}
use reflowfy.Dlq.Poll.View.{
  View, view, after, after_failure, failure_ne, failure_self, complete_ne, complete_self,
  take_up_ne, take_up_self,
}

outcome_cases :
    (o : String ⊎ String) → ((e : String) × (o ≡ inl e)) ⊎ ((id : String) × (o ≡ inr id))
outcome_cases (inl e) = inl (e, refl)
outcome_cases (inr id) = inr (id, refl)

-- The ids of the executions of the groups whose dispatch works.
abbrev id_of : String ⊎ String → List String → List String
id_of (inl error) ids = ids
id_of (inr eid) ids = eid ∷ ids

abbrev pub ids_of : (List DlqJob → String ⊎ String) → List (List DlqJob) → List String
ids_of dispatch [] = []
ids_of dispatch (g ∷ gs) = id_of (dispatch g) (ids_of dispatch gs)

module _ (now : ℕ) (dispatch : List DlqJob → String ⊎ String) where
  groups-store :
      (gs : List (List DlqJob)) (p : Progress)
      → (dispatch_groups now dispatch gs p).store ≡ process_groups now dispatch gs p.store
  unfolding dispatch_groups process_groups
  groups-store [] p = refl
  groups-store (g ∷ gs) p = elim (outcome_cases (dispatch g)) [
    | inl o ↦ simp (o.1, dispatch_groups, process_groups) (groups-store gs _)
    | inr o ↦ simp (o.1, dispatch_groups, process_groups) (groups-store gs _)
  ]

  groups-ids :
      (gs : List (List DlqJob)) (p : Progress)
      → (dispatch_groups now dispatch gs p).execution_ids ≡ p.execution_ids ++ ids_of dispatch gs
  unfolding dispatch_groups
  groups-ids [] p = sym (append-nil p.execution_ids)
  groups-ids (g ∷ gs) p = elim (outcome_cases (dispatch g)) [
    | inl o ↦ simp (o.1, dispatch_groups) (groups-ids gs _)
    | inr o ↦
        simp (o.1, dispatch_groups)
          (groups-ids gs _ ∙ append_assoc p.execution_ids (o.0 ∷ []) (ids_of dispatch gs))
  ]

  abbrev pub HasFailed : List DlqJob → Type 0
  HasFailed g = (error : String) × (dispatch g ≡ inl error)

  none_ran : (gs : List (List DlqJob)) → ids_of dispatch gs ≡ [] → All HasFailed gs
  none_ran [] h = tt
  none_ran (g ∷ gs) h = elim (outcome_cases (dispatch g)) [
    | inl o ↦ (o, none_ran gs (rw (o.1) at h))
    | inr o ↦ absurd (cons-ne-nil (o.0) (ids_of dispatch gs) (rw (o.1) at h))
  ]

-- What is answered: the error only if no group has run, and else the executions of those that have.
abbrev pub Answers :
    (List DlqJob → String ⊎ String) → List (List DlqJob) → String ⊎ (ℕ × List String) → Type 0
Answers dispatch groups (inl error) = All (HasFailed 0 dispatch) groups
Answers dispatch groups (inr (n, ids)) = ids ≡ ids_of dispatch groups

dispatched_answer-Answers :
    (dispatch : List DlqJob → String ⊎ String) (groups : List (List DlqJob)) (ids : List String)
    (last : Option String) (n : ℕ)
    → ids ≡ ids_of dispatch groups
    → Answers dispatch groups (dispatched_answer ids last n)
dispatched_answer-Answers dispatch groups [] none n h = h
dispatched_answer-Answers dispatch groups [] (some error) n h = none_ran 0 dispatch groups (sym h)
dispatched_answer-Answers dispatch groups (eid ∷ ids) last n h = h

-- A dispatch of the pending jobs of a pipeline on demand does to the table what a poll does to these
-- jobs. Its error is raised only if no group of jobs with the same params has run, and otherwise the
-- executions that it answers are those of the groups that have, in the order of the groups.
pub process_pipeline_immediately-Answers :
    (key : DlqJob → String) (locked : DlqJob → Bool) (now : ℕ) (dispatch : Dispatch)
    (pipeline_name : String) (s : Store)
    → ((process_pipeline_immediately key locked now dispatch pipeline_name s).1
        ≡ process_pipeline_jobs key now
            (dispatch pipeline_name)
            (select (is_taken locked pipeline_name) s.jobs)
            s)
      × Answers
          (dispatch pipeline_name)
          (group_by_params key (map take_up (select (is_taken locked pipeline_name) s.jobs)))
          (process_pipeline_immediately key locked now dispatch pipeline_name s).0
unfolding process_pipeline_immediately process_pipeline_jobs
process_pipeline_immediately-Answers key locked now dispatch name s = (
  groups-store now (dispatch name) _ _,
  dispatched_answer-Answers (dispatch name) _ _ _ _ (groups-ids now (dispatch name) _ _),
)

abbrev pub reply : String ⊎ String → Answer
reply (inl error) = Answer.failed error
reply (inr eid) = Answer.dispatched eid

-- A failure does not read the status.
status_free :
    (is_last : Bool) (now : ℕ) (error : String) (j : DlqJob) (a : List DlqJobArchive)
    → after_failure is_last now error j a ≡ after_failure is_last now error (take_up j) a
status_free true now error j a = refl
status_free false now error j a = refl

other_id : (j : DlqJob) (i : ℕ) → i ≢ j.id → (j.id == i) ≡ false
other_id j i n = elim (Bool-cases (j.id == i)) [
  | inl e ↦ absurd (n (sym (eq_of_== j.id i e)))
  | inr e ↦ e
]

-- What a dispatch and its commit come to: the id if both work, and the error of the one that fails.
abbrev pub outcome :
    (dispatched : String ⊎ String) → (commit_error : Option String) → String ⊎ String
outcome (inl error) commit_error = inl error
outcome (inr eid) (some error) = inl error
outcome (inr eid) none = inr eid

dispatched_or-outcome :
    (commit_error : Option String) (o : String ⊎ String)
    → dispatched_or commit_error o ≡ outcome o commit_error
dispatched_or-outcome none (inl error) = refl
dispatched_or-outcome none (inr eid) = refl
dispatched_or-outcome (some e) (inl error) = refl
dispatched_or-outcome (some e) (inr eid) = refl

-- A dispatch on demand of a pending job that is alone with its id: if the dispatch and the commit
-- work, the job is completed with the execution's id, which is answered; if one of them fails, its
-- error is raised, and the job waits for its next try with one more retry counted, or is in the
-- archive, at its last retry. The rows of all other ids stay as they are.
pub process_job_immediately-Settles :
    (now : ℕ) (dispatch : Dispatch) (commit_error : Option String) (j : DlqJob)
    (a : List DlqJobArchive) (s : Store)
    → is_pending j.status ≡ true
    → view j.id s ≡ (j ∷ [], a)
    → ((process_job_immediately now dispatch commit_error j.id s).0
        ≡ reply (outcome (dispatch j.pipeline_name (take_up j ∷ [])) commit_error))
      × (view j.id (process_job_immediately now dispatch commit_error j.id s).1
          ≡ after now
              (outcome (dispatch j.pipeline_name (take_up j ∷ [])) commit_error)
              (take_up j)
              a)
      × ((i : ℕ)
          → i ≢ j.id
          → view i (process_job_immediately now dispatch commit_error j.id s).1 ≡ view i s)
unfolding process_job_immediately first
process_job_immediately-Settles now dispatch commit_error j a s p row =
    let alone : select (has_id j.id) s.jobs ≡ j ∷ [] = ap (λ (v : View). v.0) row in
    let same = dispatched_or-outcome commit_error (dispatch j.pipeline_name (take_up j ∷ [])) in
    rw (sym same)
      (elim (outcome_cases
        (dispatched_or commit_error (dispatch j.pipeline_name (take_up j ∷ [])))) [
          | inl o ↦
              simp (alone, p, o.1, process_job_immediately, first)
                (
                  refl,
                  failure_self j a s row now (o.0)
                      ∙ status_free (leb j.max_retries (j.retry_count + 1)) now (o.0) j a,
                  (λ i n. failure_ne i now (o.0) j s (other_id j i n)),
                )
          | inr o ↦
              simp (alone, p, o.1, process_job_immediately, first)
                (
                  refl,
                  complete_self (take_up j) a (mark_processing (j ∷ []) s) (take_up_self j a s row)
                      now (o.0),
                  (λ i n.
                      complete_ne i now (o.0) (take_up j) (mark_processing (j ∷ []) s)
                        (other_id j i n)
                      ∙ take_up_ne i j s (other_id j i n)),
                )
        ])
