-- ===== src/Jobs/Queue.antt =====
-- The order of dispatch: get_pending_jobs of reflowfy/reflow_manager/job_manager.py.
use mathlib.Core.List.Perm
use mathlib.Core.List.{Perm}
use reflowfy.Prelude.{
  ℕ, suc, String, Bool, true, false, List, [], ◌∷◌, ◌++◌, ◌≡◌, refl, arith, drop, take-append-drop,
  length, length-take, min, Bool-cases, inl, inr,
}
use reflowfy.Prelude.Sql.{select, order_by, insert_by, count, length-select}
use reflowfy.Jobs.{Job}
use reflowfy.Jobs.Manager.{Table, get_pending_jobs, queued_before, is_pending_of}

module _ {ℓ} {A : Type ℓ} (le : A → A → Bool) where
  -- Each element stands before the next in the order.
  abbrev pub IsOrdered : List A → Type 0
  IsOrdered [] = Unit
  IsOrdered (x ∷ []) = Unit
  IsOrdered (x ∷ y ∷ ys) = (le x y ≡ true) × IsOrdered (y ∷ ys)

  insert_by-perm : (x : A) (ys : List A) → Perm (insert_by le x ys) (x ∷ ys)
  unfolding insert_by
  insert_by-perm x [] = Perm.refl _
  insert_by-perm x (y ∷ ys) = elim (Bool-cases (le x y)) [
    | inl h ↦ rw h (Perm.refl _)
    | inr h ↦ rw h (Perm.trans (Perm.cons y (insert_by-perm x ys)) (Perm.swap _ _ _))
  ]

  order_by-perm : (xs : List A) → Perm (order_by le xs) xs
  unfolding order_by
  order_by-perm [] = Perm.refl []
  order_by-perm (x ∷ xs) =
      Perm.trans (insert_by-perm x (order_by le xs)) (Perm.cons x (order_by-perm xs))

  length-insert_by : (x : A) (ys : List A) → length (insert_by le x ys) ≡ suc (length ys)
  unfolding insert_by
  length-insert_by x [] = refl
  length-insert_by x (y ∷ ys) = ground (arith, length-insert_by x ys)

  length-order_by : (xs : List A) → length (order_by le xs) ≡ length xs
  unfolding order_by
  length-order_by [] = refl
  length-order_by (x ∷ xs) = omega (arith, length-insert_by x (order_by le xs), length-order_by xs)

  module _ (total : (x y : A) → le x y ≡ false → le y x ≡ true) where
    insert_by-IsOrdered : (x : A) (ys : List A) → IsOrdered ys → IsOrdered (insert_by le x ys)
    unfolding insert_by
    insert_by-IsOrdered x [] h = tt
    insert_by-IsOrdered x (y ∷ []) h = ground (arith, total x y)
    insert_by-IsOrdered x (y ∷ z ∷ zs) h = ground (arith, total x y, insert_by-IsOrdered x (z ∷ zs))

    order_by-IsOrdered : (xs : List A) → IsOrdered (order_by le xs)
    unfolding order_by
    order_by-IsOrdered [] = tt
    order_by-IsOrdered (x ∷ xs) = insert_by-IsOrdered x (order_by le xs) (order_by-IsOrdered xs)

queued_before_total : (a b : Job) → queued_before a b ≡ false → queued_before b a ≡ true
unfolding queued_before
queued_before_total a b h = ground arith

-- A batch holds at most `limit` jobs, all of them pending jobs of the execution, in the order of
-- their batch and of their creation; it is as large as it can be, and whatever pending job of the
-- execution it leaves out stands behind it in that order.
pub get_pending_jobs_order :
    (eid : String) (limit : ℕ) (t : Table)
    → let batch = get_pending_jobs eid limit t in
      (rest : List Job) × IsOrdered queued_before (batch ++ rest)
      × Perm (batch ++ rest) (select (is_pending_of eid) t)
      × (length batch ≡ min limit (count (is_pending_of eid) t))
unfolding get_pending_jobs
get_pending_jobs_order eid limit t =
    let queue = order_by queued_before (select (is_pending_of eid) t) in
    let whole = order_by-perm queued_before (select (is_pending_of eid) t) in
    (
      drop limit queue,
      rw take-append-drop
          (order_by-IsOrdered queued_before queued_before_total (select (is_pending_of eid) t)),
      rw take-append-drop whole,
      omega (
        arith,
        length-take limit queue,
        length-order_by queued_before (select (is_pending_of eid) t),
        length-select (is_pending_of eid) t,
      ),
    )
