-- ===== src/Retention/Kept.antt =====
-- What the retention of executions keeps: reflowfy/reflow_manager/content_dedup_scheduler.py.
use reflowfy.Prelude.{
  ℕ, String, Bool, false, not, ◌&&◌, Option, none, some, List, [], ◌∷◌, map, if◌then◌else◌, ◌==◌,
  nat_eq, string_eq, mem, ◌≡◌, refl, sym, ap, ◌∙◌, inl, inr, Bool-cases, eq_of_==,
}
use reflowfy.Prelude.Sql.{select, delete}
use reflowfy.Prelude.Keyed.{IsKeyed, find, find_absent}
use reflowfy.Prelude.KeyedRows.{find-delete, key-find}
use reflowfy.Jobs.{Job}
use reflowfy.Executions.{Execution}
use reflowfy.Executions
use reflowfy.Runner.{World}
use reflowfy.Retention.{is_expired, expired_ids, purge_expired_executions}

abbrev fits : (Execution → Bool) → Option Execution → Bool
fits p none = false
fits p (some e) = p e

mem-ids :
    (p : Execution → Bool) (eid : String) (t : Executions.Table)
    → IsKeyed Executions.key t
    → mem eid (map Executions.key (select p t)) ≡ fits p (find Executions.key eid t)
unfolding select find
mem-ids p eid [] k = refl
mem-ids p eid (x ∷ t) k = elim (Bool-cases (Executions.key x == eid)) [
  | inr e ↦ elim (Bool-cases (p x)) [
    | inl h ↦ rw (h, e) (mem-ids p eid t k.1)
    | inr h ↦ rw (h, e) (mem-ids p eid t k.1)
  ]
  | inl e ↦ elim (Bool-cases (p x)) [
    | inl h ↦ rw (h, e) (sym h)
    | inr h ↦
        rw (h, e)
          (mem-ids p eid t k.1
            ∙ ap (fits p)
                (find_absent Executions.key eid t (rw (eq_of_== (Executions.key x) eid e) at k.0))
            ∙ sym h)
  ]
]

abbrev pub jobs_of : String → List Job → List Job
jobs_of eid = select (λ j. j.execution_id == eid)

-- The jobs of an execution after a DELETE by execution.
jobs_of-delete :
    (eid : String) (p : String → Bool) (jobs : List Job)
    → jobs_of eid (delete (λ j. p j.execution_id) jobs) ≡ (if p eid then [] else jobs_of eid jobs)
unfolding select delete
jobs_of-delete eid p [] = elim (Bool-cases (p eid)) [ inl h ↦ rw h refl | inr h ↦ rw h refl ]
jobs_of-delete eid p (j ∷ jobs) =
    let rest = jobs_of-delete eid p jobs in
    elim (Bool-cases (j.execution_id == eid)) [
      | inr e ↦ elim (Bool-cases (p j.execution_id)) [
        | inl q ↦ rw (q, e) rest
        | inr q ↦ rw (q, e) rest
      ]
      | inl e ↦
          let named : p j.execution_id ≡ p eid = ap p (eq_of_== j.execution_id eid e) in
          elim (Bool-cases (p eid)) [
            | inl h ↦ rw (named ∙ h, h) (rest ∙ rw h refl)
            | inr h ↦ rw (named ∙ h, h, e) (ap (◌∷◌ j) (rest ∙ rw h refl))
          ]
    ]

abbrev pub is_deleted : (retention_hours now : ℕ) → Execution → Bool
is_deleted retention_hours now e = not (retention_hours == 0) && is_expired retention_hours now e

-- The retention deletes an execution and all of its jobs, or neither: both if the execution has
-- completed longer ago than the hours of retention, and neither if it has completed later, or not at
-- all, or if there is no retention. The executions have distinct ids.
pub purge_expired_executions-Keeps :
    (retention_hours now : ℕ) (w : World) (eid : String) (e : Execution)
    → IsKeyed Executions.key w.executions
    → find Executions.key eid w.executions ≡ some e
    → (find Executions.key eid (purge_expired_executions retention_hours now w).1.executions
        ≡ (if is_deleted retention_hours now e then none else some e))
      × (jobs_of eid (purge_expired_executions retention_hours now w).1.jobs
          ≡ (if is_deleted retention_hours now e then [] else jobs_of eid w.jobs))
unfolding purge_expired_executions
purge_expired_executions-Keeps retention now w eid e k h =
    let expired = expired_ids retention now w.executions in
    let gone =
      find-delete Executions.key (λ x. mem (Executions.key x) expired) eid w.executions k in
    let named = key-find Executions.key eid w.executions e h in
    let hit : mem eid expired ≡ is_expired retention now e =
      mem-ids (is_expired retention now) eid w.executions k ∙ rw h refl in
    let jobs = jobs_of-delete eid (λ i. mem i expired) w.jobs in
    elim (Bool-cases (retention == 0)) [
      | inl z ↦ rw z (h, refl)
      | inr z ↦ rw z (gone ∙ rw h (rw (named, hit) refl), jobs ∙ rw hit refl)
    ]
