-- ===== src/Dlq/Poll/Settle.antt =====
-- The groups of dead letters and their outcomes, seen from a job that is in one of them:
-- `_process_pipeline_jobs` of reflowfy/reflow_manager/dlq_scheduler.py.
use reflowfy.Prelude.{
  ℕ, String, true, false, List, [], ◌∷◌, ◌⊎◌, inl, inr, ◌==◌, nat_eq, string_eq, ◌≡◌, refl, sym, ap,
  ◌∙◌, arith, All,
}
use mathlib.Core.Path.{subst}
use reflowfy.Dlq.{DlqJob, DlqJobArchive, Store, fail_all, mark_completed, process_groups}
use reflowfy.Dlq.Poll.View.{
  View, view, after, settle, failure_ne, failure_self, complete_ne, complete_self,
}
use reflowfy.Dlq.Poll.Once.{sum, untouched, once, hit, IsOnly}

miss : (i : ℕ) (x : DlqJob) → hit i x ≡ 0 → (x.id == i) ≡ false
miss i x h = ground arith

found : (i : ℕ) (x : DlqJob) → hit i x ≡ 1 → (x.id == i) ≡ true
found i x h = ground arith

-- A step for each of a list of jobs, of which `k` is one.
module _ (k : DlqJob) (a : List DlqJobArchive) (before out : View)
    (step : List DlqJob → Store → Store) (none_left : (s : Store) → step [] s ≡ s)
    (in_turn : (x : DlqJob) (xs : List DlqJob) (s : Store)
      → step (x ∷ xs) s ≡ step xs (step (x ∷ []) s))
    (missed : (x : DlqJob) (s : Store)
      → (x.id == k.id) ≡ false
      → view k.id (step (x ∷ []) s) ≡ view k.id s) where
  pub each_untouched :
      (xs : List DlqJob) (s : Store) → sum (hit k.id) xs ≡ 0 → view k.id (step xs s) ≡ view k.id s
  each_untouched =
      untouched k.id (hit k.id) step none_left in_turn (λ x s h. missed x s (miss k.id x h))

  pub each_once :
      ((s : Store) → view k.id s ≡ before → view k.id (step (k ∷ []) s) ≡ out)
      → (xs : List DlqJob) (s : Store) → sum (hit k.id) xs ≡ 1
      → All (IsOnly k.id k) xs
      → view k.id s ≡ before
      → view k.id (step xs s) ≡ out
  each_once self xs s h only old =
      let (x, fits, hit_x, ends) =
        once k.id (hit k.id) step none_left in_turn (λ x u n. missed x u (miss k.id x n))
          (IsOnly k.id k) (λ x w. w ≡ out) before
          (λ x u fits one is_old.
            subst (λ (y : DlqJob). view k.id (step (y ∷ []) u) ≡ out)
              (sym (fits (found k.id x one))) (self u is_old))
          xs s h only old in
      ends

module _ (k : DlqJob) (a : List DlqJobArchive) (now : ℕ) where
  pub settle_untouched :
      (o : String ⊎ String) (g : List DlqJob) (s : Store)
      → sum (hit k.id) g ≡ 0
      → view k.id (settle now o g s) ≡ view k.id s
  unfolding fail_all mark_completed
  settle_untouched (inl error) =
      each_untouched k a (k ∷ [], a) (k ∷ [], a) (fail_all now error) (λ s. refl) (λ x xs s. refl)
        (λ x s n. failure_ne k.id now error x s n)
  settle_untouched (inr eid) =
      each_untouched k a (k ∷ [], a) (k ∷ [], a) (mark_completed now eid) (λ s. refl)
        (λ x xs s. refl) (λ x s n. complete_ne k.id now eid x s n)

  pub settle_once :
      (o : String ⊎ String) (g : List DlqJob) (s : Store)
      → sum (hit k.id) g ≡ 1
      → All (IsOnly k.id k) g
      → view k.id s ≡ (k ∷ [], a)
      → view k.id (settle now o g s) ≡ after now o k a
  unfolding fail_all mark_completed
  settle_once (inl error) =
      each_once k a (k ∷ [], a) (after now (inl error) k a) (fail_all now error) (λ s. refl)
        (λ x xs s. refl) (λ x s n. failure_ne k.id now error x s n)
        (λ s old. failure_self k a s old now error)
  settle_once (inr eid) =
      each_once k a (k ∷ [], a) (after now (inr eid) k a) (mark_completed now eid) (λ s. refl)
        (λ x xs s. refl) (λ x s n. complete_ne k.id now eid x s n)
        (λ s old. complete_self k a s old now eid)

  module _ (dispatch : List DlqJob → String ⊎ String) where
    settle-elim :
        (o : String ⊎ String) (g : List DlqJob) (gs : List (List DlqJob)) (s : Store)
        → process_groups now dispatch gs (settle now o g s) ≡ (elim o [
          | inl error ↦ process_groups now dispatch gs (fail_all now error g s)
          | inr eid ↦ process_groups now dispatch gs (mark_completed now eid g s)
        ])
    settle-elim (inl error) g gs s = refl
    settle-elim (inr eid) g gs s = refl

    process_groups-cons :
        (g : List DlqJob) (gs : List (List DlqJob)) (s : Store)
        → process_groups now dispatch (g ∷ gs) s
          ≡ process_groups now dispatch gs (settle now (dispatch g) g s)
    unfolding process_groups
    process_groups-cons g gs s = sym (settle-elim (dispatch g) g gs s)

    pub process_groups-nil : (s : Store) → process_groups now dispatch [] s ≡ s
    unfolding process_groups
    process_groups-nil s = refl

    pub process_groups-one :
        (g : List DlqJob) (s : Store)
        → process_groups now dispatch (g ∷ []) s ≡ settle now (dispatch g) g s
    process_groups-one g s = process_groups-cons g [] s ∙ process_groups-nil _

    pub process_groups-in_turn :
        (g : List DlqJob) (gs : List (List DlqJob)) (s : Store)
        → process_groups now dispatch (g ∷ gs) s
          ≡ process_groups now dispatch gs (process_groups now dispatch (g ∷ []) s)
    process_groups-in_turn g gs s =
        process_groups-cons g gs s
        ∙ ap (process_groups now dispatch gs) (sym (process_groups-one g s))
