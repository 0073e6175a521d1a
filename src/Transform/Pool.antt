-- ===== src/Transform/Pool.antt =====
-- A step that transforms its records one by one, several at a time: `_apply_one`, `_apply_all` and
-- `apply_records` of RecordTransformation in reflowfy/transformations/base.py. The workers of the
-- pool are tasks that take records from one iterator; what a call of apply_record does is given for
-- each record, and in which order the calls end is the schedule's. `setup` and `teardown` are left out.
pub mod Inv
pub mod Order
pub mod Ends
use reflowfy.Prelude.{
  ℕ, zero, suc, String, Bool, true, false, Option, none, some, List, [], ◌∷◌, ◌++◌, length,
  get_elem?, ltb, min, if◌then◌else◌, ◌≡◌, ◌<◌,
}
use reflowfy.Transform.Skips.{Reasons, count_skip_reason}

-- How a call of apply_record ends: `nothing` is None, `record_failed` a RecordFailure of the user's, and
-- `raised` any other exception. An error is its text.
pub data CallEnd {ℓ} (R : Type ℓ) : Type ℓ where
  returned : R → CallEnd R
  nothing : CallEnd R
  skip_record : (reason : String) → CallEnd R
  skip_job : (reason : String) → CallEnd R
  timed_out : (error : String) → CallEnd R
  raised : (error : String) → CallEnd R
  record_failed : (index : ℕ) → (record_ : R) → (error : String) → CallEnd R

-- What stands at a record's place in `results`.
pub data Cell {ℓ} (R : Type ℓ) : Type ℓ where
  kept : R → Cell R
  absent : Cell R
  skipped : (reason : String) → Cell R

pub data Stop {ℓ} (R : Type ℓ) : Type ℓ where
  skip_job : (reason : String) → Stop R
  record_failure : (index : ℕ) → (record_ : R) → (error : String) → Stop R

pub data ApplyEnd {ℓ} (R : Type ℓ) : Type ℓ where
  done : Cell R → ApplyEnd R
  stops : Stop R → ApplyEnd R

pub data Slot : Type 0 where
  idle : Slot
  busy : (index : ℕ) → Slot
  finished : Slot

-- `results[index] = cell`
unfoldable pub put {ℓ} : {A : Type ℓ} → ℕ → A → List A → List A
put index cell [] = []
put zero cell (x ∷ xs) = cell ∷ xs
put (suc index) cell (x ∷ xs) = x ∷ put index cell xs

unfoldable pub repeat {ℓ} : {A : Type ℓ} → ℕ → A → List A
repeat zero x = []
repeat (suc n) x = x ∷ repeat n x

-- `next` is the position of the iterator; `slots` the workers; `stopped` what gather raises.
pub record Pool {ℓ} (R : Type ℓ) : Type ℓ where
  pub next : ℕ
  pub slots : List Slot
  pub results : List (Cell R)
  pub stopped : Option (Stop R)

abbrev pub all_finished : List Slot → Bool
all_finished [] = true
all_finished (Slot.finished ∷ slots) = all_finished slots
all_finished (Slot.idle ∷ slots) = false
all_finished (Slot.busy i ∷ slots) = false

module _ {ℓ} {R : Type ℓ} where
  abbrev pub reply_to : ℕ → R → CallEnd R → ApplyEnd R
  reply_to index r (CallEnd.returned s) = ApplyEnd.done (Cell.kept s)
  reply_to index r CallEnd.nothing = ApplyEnd.done Cell.absent
  reply_to index r (CallEnd.skip_record reason) = ApplyEnd.done (Cell.skipped reason)
  reply_to index r (CallEnd.skip_job reason) = ApplyEnd.stops (Stop.skip_job reason)
  reply_to index r (CallEnd.timed_out e) = ApplyEnd.stops (Stop.record_failure index r e)
  reply_to index r (CallEnd.raised e) = ApplyEnd.stops (Stop.record_failure index r e)
  reply_to index r (CallEnd.record_failed n q e) = ApplyEnd.stops (Stop.record_failure n q e)

  unfoldable pub apply_one : (apply_record : R → CallEnd R) → ℕ → R → ApplyEnd R
  apply_one apply_record index r = reply_to index r (apply_record r)

  unfoldable pub start_pool : (concurrency : ℕ) → List R → Pool R
  unfolding repeat
  start_pool concurrency records = record {
    next = 0;
    slots = repeat (min concurrency (length records)) Slot.idle;
    results = repeat (length records) Cell.absent;
    stopped = none;
  }

  -- One step of one worker: it takes the next record, finds the iterator at its end, or its call ends.
  pub data Step (apply_record : R → CallEnd R) (records : List R) (p : Pool R)
      : Pool R → Type ℓ where
    takes :
        (pre post : List Slot) {q : Pool R}
        → p.stopped ≡ none
        → p.slots ≡ pre ++ Slot.idle ∷ post
        → p.next < length records
        → q ≡ record p { next = suc p.next; slots = pre ++ Slot.busy p.next ∷ post }
        → Step apply_record records p q
    ends :
        (pre post : List Slot) {q : Pool R}
        → p.stopped ≡ none
        → p.slots ≡ pre ++ Slot.idle ∷ post
        → p.next ≡ length records
        → q ≡ record p { slots = pre ++ Slot.finished ∷ post }
        → Step apply_record records p q
    replies :
        (pre post : List Slot) (i : ℕ) (r : R) (cell : Cell R) {q : Pool R}
        → p.stopped ≡ none
        → p.slots ≡ pre ++ Slot.busy i ∷ post
        → get_elem? records i ≡ some r
        → apply_one apply_record i r ≡ ApplyEnd.done cell
        → q ≡ record p { slots = pre ++ Slot.idle ∷ post; results = put i cell p.results }
        → Step apply_record records p q
    stops :
        (pre post : List Slot) (i : ℕ) (r : R) (stop : Stop R) {q : Pool R}
        → p.stopped ≡ none
        → p.slots ≡ pre ++ Slot.busy i ∷ post
        → get_elem? records i ≡ some r
        → apply_one apply_record i r ≡ ApplyEnd.stops stop
        → q ≡ record p { stopped = some stop }
        → Step apply_record records p q

  -- The pools after `k` steps.
  pub data Reach (apply_record : R → CallEnd R) (records : List R) (concurrency : ℕ)
      : ℕ → Pool R → Type ℓ where
    start : Reach apply_record records concurrency 0 (start_pool concurrency records)
    later :
        {k : ℕ} {p q : Pool R}
        → Reach apply_record records concurrency k p
        → Step apply_record records p q
        → Reach apply_record records concurrency (suc k) q

  -- The kept records and the reasons of the others.
  unfoldable pub collect : List (Cell R) → List R → Reasons → List R × Reasons
  unfolding count_skip_reason
  collect [] rows reasons = (rows, reasons)
  collect (Cell.kept r ∷ cells) rows reasons = collect cells (rows ++ r ∷ []) reasons
  collect (Cell.absent ∷ cells) rows reasons = collect cells rows reasons
  collect (Cell.skipped reason ∷ cells) rows reasons =
      collect cells rows (count_skip_reason reasons reason 1)
