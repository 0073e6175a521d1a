-- ===== src/Transform/Pool/Order.antt =====
-- What a run of the pool gives, and that it ends: `_apply_all` and `apply_records` of
-- reflowfy/transformations/base.py, whatever the schedule.
use reflowfy.Prelude.{
  ℕ, zero, suc, ◌+◌, ◌≤◌, ◌<◌, String, true, false, Option, none, some, List, [], ◌∷◌, ◌++◌, length,
  get_elem?, min, ◌≡◌, ◌∙◌, sym, ap, refl, arith,
}
use mathlib.Core.List.{append_assoc, append-nil}
use reflowfy.Transform.Skips.{Reasons, count_skip_reason}
use reflowfy.Transform.Skips.Bounds.{total, total-count}
use reflowfy.Transform.Pool.{
  CallEnd, Cell, Stop, ApplyEnd, Slot, Pool, Step, Reach, repeat, reply_to, apply_one, start_pool,
  all_finished, collect,
}
use reflowfy.Transform.Pool.Inv.{Settled, holds, is_finished, some_slot, cell_of, Reach-Inv}

-- The records that calls return, in order, and how many calls skip their record.
abbrev pub answer_of {ℓ} : {R : Type ℓ} → CallEnd R → List R
answer_of (CallEnd.returned s) = s ∷ []
answer_of CallEnd.nothing = []
answer_of (CallEnd.skip_record reason) = []
answer_of (CallEnd.skip_job reason) = []
answer_of (CallEnd.timed_out e) = []
answer_of (CallEnd.raised e) = []
answer_of (CallEnd.record_failed n q e) = []

abbrev pub skips_of {ℓ} : {R : Type ℓ} → CallEnd R → ℕ
skips_of (CallEnd.returned s) = 0
skips_of CallEnd.nothing = 0
skips_of (CallEnd.skip_record reason) = 1
skips_of (CallEnd.skip_job reason) = 0
skips_of (CallEnd.timed_out e) = 0
skips_of (CallEnd.raised e) = 0
skips_of (CallEnd.record_failed n q e) = 0

abbrev pub rows_of {ℓ} : {R : Type ℓ} → Cell R → List R
rows_of (Cell.kept s) = s ∷ []
rows_of Cell.absent = []
rows_of (Cell.skipped reason) = []

cell_answer {ℓ} :
    {R : Type ℓ} (o : CallEnd R) (s : R)
    → some (Cell.kept s) ≡ cell_of o
    → (answer_of o ≡ s ∷ []) × (skips_of o ≡ 0)
cell_answer (CallEnd.returned t) s h = (cc h, refl)
cell_answer CallEnd.nothing s h = cc h
cell_answer (CallEnd.skip_record reason) s h = cc h
cell_answer (CallEnd.skip_job reason) s h = cc h
cell_answer (CallEnd.timed_out e) s h = cc h
cell_answer (CallEnd.raised e) s h = cc h
cell_answer (CallEnd.record_failed n q e) s h = cc h

cell_absent {ℓ} :
    {R : Type ℓ} (o : CallEnd R)
    → some Cell.absent ≡ cell_of o
    → (answer_of o ≡ []) × (skips_of o ≡ 0)
cell_absent (CallEnd.returned t) h = cc h
cell_absent CallEnd.nothing h = (refl, refl)
cell_absent (CallEnd.skip_record reason) h = cc h
cell_absent (CallEnd.skip_job reason) h = cc h
cell_absent (CallEnd.timed_out e) h = cc h
cell_absent (CallEnd.raised e) h = cc h
cell_absent (CallEnd.record_failed n q e) h = cc h

cell_skipped {ℓ} :
    {R : Type ℓ} (o : CallEnd R) (reason : String)
    → some (Cell.skipped reason) ≡ cell_of o
    → (answer_of o ≡ []) × (skips_of o ≡ 1)
cell_skipped (CallEnd.returned t) r h = cc h
cell_skipped CallEnd.nothing r h = cc h
cell_skipped (CallEnd.skip_record reason) r h = (refl, refl)
cell_skipped (CallEnd.skip_job reason) r h = cc h
cell_skipped (CallEnd.timed_out e) r h = cc h
cell_skipped (CallEnd.raised e) r h = cc h
cell_skipped (CallEnd.record_failed n q e) r h = cc h

module _ {ℓ} {R : Type ℓ} (apply_record : R → CallEnd R) where
  abbrev pub returned_by : List R → List R
  returned_by [] = []
  returned_by (r ∷ rs) = answer_of (apply_record r) ++ returned_by rs

  abbrev pub skipped_by : List R → ℕ
  skipped_by [] = 0
  skipped_by (r ∷ rs) = skips_of (apply_record r) + skipped_by rs

  Filled : List R → List (Cell R) → Type ℓ
  Filled records cells =
      (i : ℕ) (r : R) → get_elem? records i ≡ some r → get_elem? cells i ≡ cell_of (apply_record r)

  Collects : List R → List R → Reasons → List R × Reasons → Type ℓ
  Collects records rows reasons out =
      (out.0 ≡ rows ++ returned_by records) × (total out.1 ≡ total reasons + skipped_by records)

  collect-Collects :
      (records : List R) (cells : List (Cell R)) (rows : List R) (reasons : Reasons)
      → length cells ≡ length records
      → Filled records cells
      → Collects records rows reasons (collect cells rows reasons)
  unfolding collect Collects Filled
  collect-Collects [] [] rows reasons n h = (sym (append-nil rows), omega arith)
  collect-Collects [] (cell ∷ cells) rows reasons n h = absurd (omega arith)
  collect-Collects (r ∷ records) [] rows reasons n h = absurd (omega arith)
  collect-Collects (r ∷ records) (Cell.kept s ∷ cells) rows reasons n h =
      let (a, b) = cell_answer (apply_record r) s (h 0 r refl) in
      let (c, d) =
        collect-Collects records cells (rows ++ s ∷ []) reasons (omega arith) (λ i. h (suc i)) in
      (c ∙ append_assoc rows (s ∷ []) (returned_by records) ∙ rw a refl, omega (arith, b, d))
  collect-Collects (r ∷ records) (Cell.absent ∷ cells) rows reasons n h =
      let (a, b) = cell_absent (apply_record r) (h 0 r refl) in
      let (c, d) = collect-Collects records cells rows reasons (omega arith) (λ i. h (suc i)) in
      (rw a c, omega (arith, b, d))
  collect-Collects (r ∷ records) (Cell.skipped reason ∷ cells) rows reasons n h =
      let (a, b) = cell_skipped (apply_record r) reason (h 0 r refl) in
      let (c, d) =
        collect-Collects records cells rows (count_skip_reason reasons reason 1) (omega arith)
          (λ i. h (suc i)) in
      (rw a c, omega (arith, b, d, total-count reasons reason 1))

finished_holds :
    (i : ℕ) (slots : List Slot) → all_finished slots ≡ true → some_slot (holds i) slots ≡ false
finished_holds i [] h = refl
finished_holds i (Slot.idle ∷ slots) h = cc h
finished_holds i (Slot.busy j ∷ slots) h = cc h
finished_holds i (Slot.finished ∷ slots) h = finished_holds i slots h

some_finished :
    (slots : List Slot)
    → all_finished slots ≡ true
    → 1 ≤ length slots
    → some_slot is_finished slots ≡ true
some_finished [] h n = absurd (omega arith)
some_finished (Slot.idle ∷ slots) h n = cc h
some_finished (Slot.busy j ∷ slots) h n = cc h
some_finished (Slot.finished ∷ slots) h n = refl

get-lt {ℓ} : {A : Type ℓ} (i : ℕ) (x : A) (xs : List A) → get_elem? xs i ≡ some x → i < length xs
get-lt i x [] h = cc h
get-lt zero x (y ∷ xs) h = omega arith
get-lt (suc i) x (y ∷ xs) h = omega (arith, get-lt i x xs h)

length-swap :
    (pre post : List Slot) (x y : Slot) → length (pre ++ x ∷ post) ≡ length (pre ++ y ∷ post)
length-swap [] post x y = refl
length-swap (z ∷ pre) post x y = ap suc (length-swap pre post x y)

length-repeat_idle : (n : ℕ) → length (repeat n Slot.idle) ≡ n
unfolding repeat
length-repeat_idle zero = refl
length-repeat_idle (suc n) = ap suc (length-repeat_idle n)

module _ {ℓ} {R : Type ℓ} (apply_record : R → CallEnd R) (records : List R) where
  step_slots : (p q : Pool R) → Step apply_record records p q → length q.slots ≡ length p.slots
  step_slots p q (Step.takes pre post fine slots more e) =
      ap (λ (s : Pool R). length s.slots) e
      ∙ length-swap pre post (Slot.busy p.next) Slot.idle
      ∙ sym (ap length slots)
  step_slots p q (Step.ends pre post fine slots over e) =
      ap (λ (s : Pool R). length s.slots) e
      ∙ length-swap pre post Slot.finished Slot.idle
      ∙ sym (ap length slots)
  step_slots p q (Step.replies pre post i r cell fine slots at d e) =
      ap (λ (s : Pool R). length s.slots) e
      ∙ length-swap pre post Slot.idle (Slot.busy i)
      ∙ sym (ap length slots)
  step_slots p q (Step.stops pre post i r stop fine slots at d e) =
      ap (λ (s : Pool R). length s.slots) e

  pub Reach-slots :
      (concurrency k : ℕ) (p : Pool R)
      → Reach apply_record records concurrency k p
      → length p.slots ≡ min concurrency (length records)
  unfolding start_pool
  Reach-slots concurrency zero p Reach.start = length-repeat_idle (min concurrency (length records))
  Reach-slots concurrency (suc k) p (Reach.later {p = q} reached step) =
      step_slots q p step ∙ Reach-slots concurrency k q reached

  -- What is raised for the call of the record `r` at `i`, if anything.
  abbrev pub raised_for : ℕ → R → CallEnd R → Option (Stop R)
  raised_for i r (CallEnd.returned s) = none
  raised_for i r CallEnd.nothing = none
  raised_for i r (CallEnd.skip_record reason) = none
  raised_for i r (CallEnd.skip_job reason) = some (Stop.skip_job reason)
  raised_for i r (CallEnd.timed_out e) = some (Stop.record_failure i r e)
  raised_for i r (CallEnd.raised e) = some (Stop.record_failure i r e)
  raised_for i r (CallEnd.record_failed n q e) = some (Stop.record_failure n q e)

  stop_of :
      (i : ℕ) (r : R) (o : CallEnd R) (stop : Stop R)
      → reply_to i r o ≡ ApplyEnd.stops stop
      → raised_for i r o ≡ some stop
  stop_of i r (CallEnd.returned s) stop h = cc h
  stop_of i r CallEnd.nothing stop h = cc h
  stop_of i r (CallEnd.skip_record reason) stop h = cc h
  stop_of i r (CallEnd.skip_job reason) stop h = cc h
  stop_of i r (CallEnd.timed_out e) stop h = cc h
  stop_of i r (CallEnd.raised e) stop h = cc h
  stop_of i r (CallEnd.record_failed n q e) stop h = cc h

  -- What the step raises is what the call of some record has raised.
  abbrev pub Raised : Stop R → Type ℓ
  Raised stop =
      (i : ℕ) × (r : R) × (get_elem? records i ≡ some r)
      × (raised_for i r (apply_record r) ≡ some stop)

  step-Raised :
      (p q : Pool R) (stop : Stop R)
      → Step apply_record records p q
      → q.stopped ≡ some stop
      → Raised stop
  unfolding apply_one
  step-Raised p q stop (Step.takes pre post fine slots more e) h =
      cc (h, ap (λ (s : Pool R). s.stopped) e, fine)
  step-Raised p q stop (Step.ends pre post fine slots over e) h =
      cc (h, ap (λ (s : Pool R). s.stopped) e, fine)
  step-Raised p q stop (Step.replies pre post i r cell fine slots at d e) h =
      cc (h, ap (λ (s : Pool R). s.stopped) e, fine)
  step-Raised p q stop (Step.stops pre post i r other fine slots at d e) h =
      (i, r, at, stop_of i r (apply_record r) stop (cc (d, h, ap (λ (s : Pool R). s.stopped) e)))

  pub Reach-Raised :
      (concurrency k : ℕ) (p : Pool R) (stop : Stop R)
      → Reach apply_record records concurrency k p
      → p.stopped ≡ some stop
      → Raised stop
  unfolding start_pool
  Reach-Raised concurrency zero p stop Reach.start h = cc h
  Reach-Raised concurrency (suc k) p stop (Reach.later {p = q} reached step) h =
      step-Raised q p stop step h

  finished-Filled :
      (concurrency k : ℕ) (p : Pool R)
      → 1 ≤ concurrency
      → Reach apply_record records concurrency k p
      → all_finished p.slots ≡ true
      → Filled apply_record records p.results
  unfolding Filled Settled
  finished-Filled concurrency k p one reached over i r at =
      let inv = Reach-Inv apply_record records concurrency k p reached in
      let lt = get-lt i r records at in
      let many : 1 ≤ length p.slots = omega (arith, Reach-slots concurrency k p reached) in
      let next = inv.ended (some_finished p.slots over many) in
      inv.settled i (omega arith) (finished_holds i p.slots over) r at

  -- When every worker of the pool has ended, in whatever order their calls have, the step gives the
  -- records that the calls return, in the order of its input, and its reasons add up to the number of
  -- records that are skipped. At least one record may be in flight.
  pub apply_records_ordered :
      (concurrency k : ℕ) (p : Pool R)
      → 1 ≤ concurrency
      → Reach apply_record records concurrency k p
      → all_finished p.slots ≡ true
      → let out = collect p.results [] [] in
        (out.0 ≡ returned_by apply_record records) × (total out.1 ≡ skipped_by apply_record records)
  unfolding Collects
  apply_records_ordered concurrency k p one reached over =
      let inv = Reach-Inv apply_record records concurrency k p reached in
      let (a, b) =
        collect-Collects apply_record records p.results [] [] inv.size
          (finished-Filled concurrency k p one reached over) in
      (a, omega (arith, b))
