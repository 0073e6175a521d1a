-- ===== src/Transform/Pool/Inv.antt =====
-- The invariant of the pool of workers of `_apply_all`, reflowfy/transformations/base.py.
use reflowfy.Prelude.{
  ℕ, zero, suc, ◌≤◌, ◌<◌, Bool, true, false, Option, none, some, List, [], ◌∷◌, ◌++◌, length,
  get_elem?, ◌||◌, min, ◌≡◌, ◌≢◌, ◌∙◌, sym, ap, refl, arith, nat_beq, nat_beq_iff, Bool-cases, inl,
  inr,
}
use mathlib.Core.Path.{subst}
use reflowfy.Transform.Pool.{
  CallEnd, Cell, ApplyEnd, Slot, Pool, Step, Reach, put, repeat, reply_to, apply_one, start_pool,
}

abbrev pub holds : ℕ → Slot → Bool
holds i Slot.idle = false
holds i (Slot.busy j) = nat_beq j i
holds i Slot.finished = false

abbrev pub is_finished : Slot → Bool
is_finished Slot.idle = false
is_finished (Slot.busy j) = false
is_finished Slot.finished = true

abbrev pub some_slot : (Slot → Bool) → List Slot → Bool
some_slot q [] = false
some_slot q (x ∷ xs) = q x || some_slot q xs

pub some_slot-append :
    (q : Slot → Bool) (pre : List Slot) (x : Slot) (post : List Slot)
    → some_slot q (pre ++ x ∷ post) ≡ (q x || (some_slot q pre || some_slot q post))
some_slot-append q [] x post = refl
some_slot-append q (y ∷ pre) x post = ground (arith, some_slot-append q pre x post)

some_slot-repeat :
    (q : Slot → Bool) (n : ℕ) → q Slot.idle ≡ false → some_slot q (repeat n Slot.idle) ≡ false
unfolding repeat
some_slot-repeat q zero h = refl
some_slot-repeat q (suc n) h = ground (arith, some_slot-repeat q n h)

pub length-put {ℓ} : {A : Type ℓ} (i : ℕ) (x : A) (xs : List A) → length (put i x xs) ≡ length xs
unfolding put
length-put i x [] = refl
length-put zero x (y ∷ xs) = refl
length-put (suc i) x (y ∷ xs) = ap suc (length-put i x xs)

length-repeat {ℓ} : {A : Type ℓ} (n : ℕ) (x : A) → length (repeat n x) ≡ n
unfolding repeat
length-repeat zero x = refl
length-repeat (suc n) x = ap suc (length-repeat n x)

get-put_self {ℓ} :
    {A : Type ℓ} (i : ℕ) (x : A) (xs : List A) → i < length xs → get_elem? (put i x xs) i ≡ some x
unfolding put
get-put_self i x [] h = absurd (omega arith)
get-put_self zero x (y ∷ xs) h = refl
get-put_self (suc i) x (y ∷ xs) h = get-put_self i x xs (omega arith)

get-put_ne {ℓ} :
    {A : Type ℓ} (i j : ℕ) (x : A) (xs : List A) → i ≢ j → get_elem? (put i x xs) j ≡ get_elem? xs j
unfolding put
get-put_ne i j x [] h = refl
get-put_ne zero zero x (y ∷ xs) h = absurd (h refl)
get-put_ne zero (suc j) x (y ∷ xs) h = refl
get-put_ne (suc i) zero x (y ∷ xs) h = refl
get-put_ne (suc i) (suc j) x (y ∷ xs) h = get-put_ne i j x xs (λ e. h (ap suc e))

-- What a record's place holds after its call; none for a call that stops the step.
abbrev pub cell_of {ℓ} : {R : Type ℓ} → CallEnd R → Option (Cell R)
cell_of (CallEnd.returned s) = some (Cell.kept s)
cell_of CallEnd.nothing = some Cell.absent
cell_of (CallEnd.skip_record reason) = some (Cell.skipped reason)
cell_of (CallEnd.skip_job reason) = none
cell_of (CallEnd.timed_out e) = none
cell_of (CallEnd.raised e) = none
cell_of (CallEnd.record_failed n q e) = none

done_cell {ℓ} :
    {R : Type ℓ} (o : CallEnd R) (i : ℕ) (r : R) (cell : Cell R)
    → reply_to i r o ≡ ApplyEnd.done cell
    → cell_of o ≡ some cell
done_cell (CallEnd.returned s) i r cell h = cc h
done_cell CallEnd.nothing i r cell h = cc h
done_cell (CallEnd.skip_record reason) i r cell h = cc h
done_cell (CallEnd.skip_job reason) i r cell h = cc h
done_cell (CallEnd.timed_out t) i r cell h = cc h
done_cell (CallEnd.raised t) i r cell h = cc h
done_cell (CallEnd.record_failed n q t) i r cell h = cc h

module _ {ℓ} {R : Type ℓ} (apply_record : R → CallEnd R) (records : List R) where
  -- A record whose call is over has its cell.
  unfoldable pub Settled : ℕ → List (Cell R) → Type ℓ
  Settled i results =
      (r : R) → get_elem? records i ≡ some r → get_elem? results i ≡ cell_of (apply_record r)

  pub record Inv (p : Pool R) : Type ℓ where
    pub size : length p.results ≡ length records
    pub bound : p.next ≤ length records
    pub settled : (i : ℕ) → i < p.next → some_slot (holds i) p.slots ≡ false → Settled i p.results
    pub ended : some_slot is_finished p.slots ≡ true → p.next ≡ length records
    pub taken : (i : ℕ) → some_slot (holds i) p.slots ≡ true → i < p.next

  start-Inv : (concurrency : ℕ) → Inv (start_pool concurrency records)
  unfolding start_pool
  start-Inv concurrency =
      let n = min concurrency (length records) in
      record {
        size = length-repeat (length records) Cell.absent;
        bound = omega arith;
        settled = λ i h. absurd (omega arith);
        ended = λ h. cc (h, some_slot-repeat is_finished n refl);
        taken = λ i h. cc (h, some_slot-repeat (holds i) n refl);
      }

  module _ (p : Pool R) (inv : Inv p) (pre post : List Slot) where
    takes-Inv :
        p.slots ≡ pre ++ Slot.idle ∷ post
        → p.next < length records
        → Inv (record p { next = suc p.next; slots = pre ++ Slot.busy p.next ∷ post })
    takes-Inv e lt =
        let before =
          λ (q : Slot → Bool). ap (some_slot q) e ∙ some_slot-append q pre Slot.idle post in
        let after = λ (q : Slot → Bool). some_slot-append q pre (Slot.busy p.next) post in
        record {
          size = inv.size;
          bound = omega arith;
          settled = λ i h k.
              inv.settled i (ground (arith, after (holds i)))
                (ground (arith, before (holds i), after (holds i)));
          ended = λ h.
              absurd
                (omega (arith, inv.ended (ground (arith, before is_finished, after is_finished))));
          taken = λ i h. ground (arith, before (holds i), after (holds i), inv.taken i);
        }

    ends-Inv :
        p.slots ≡ pre ++ Slot.idle ∷ post
        → p.next ≡ length records
        → Inv (record p { slots = pre ++ Slot.finished ∷ post })
    ends-Inv e n =
        let before =
          λ (q : Slot → Bool). ap (some_slot q) e ∙ some_slot-append q pre Slot.idle post in
        let after = λ (q : Slot → Bool). some_slot-append q pre Slot.finished post in
        record {
          size = inv.size;
          bound = inv.bound;
          settled = λ i h k. inv.settled i h (ground (arith, before (holds i), after (holds i)));
          ended = λ h. n;
          taken = λ i h. inv.taken i (ground (arith, before (holds i), after (holds i)));
        }

    settles :
        (i : ℕ) (r : R) (cell : Cell R)
        → get_elem? records i ≡ some r
        → apply_one apply_record i r ≡ ApplyEnd.done cell
        → i < p.next
        → Settled i (put i cell p.results)
    unfolding apply_one Settled
    settles i r cell at d lt s there =
        get-put_self i cell p.results (omega (arith, inv.size, inv.bound))
        ∙ sym (done_cell (apply_record r) i r cell d)
        ∙ ap (λ (o : Option R). elim o [ none ↦ none | some x ↦ cell_of (apply_record x) ])
            (sym at ∙ there)

    replies-Inv :
        (i : ℕ) (r : R) (cell : Cell R)
        → p.slots ≡ pre ++ Slot.busy i ∷ post
        → get_elem? records i ≡ some r
        → apply_one apply_record i r ≡ ApplyEnd.done cell
        → Inv (record p { slots = pre ++ Slot.idle ∷ post; results = put i cell p.results })
    unfolding apply_one Settled
    replies-Inv i r cell e at d =
        let before =
          λ (q : Slot → Bool). ap (some_slot q) e ∙ some_slot-append q pre (Slot.busy i) post in
        let after = λ (q : Slot → Bool). some_slot-append q pre Slot.idle post in
        record {
          size = length-put i cell p.results ∙ inv.size;
          bound = inv.bound;
          settled = λ j h k. elim (Bool-cases (nat_beq i j)) [
            | inl same ↦
                subst (λ n. Settled n (put i cell p.results)) ((nat_beq_iff i j).0 same)
                  (settles i r cell at d
                    (ground (arith, before (holds i), nat_beq_iff i i, inv.taken i)))
            | inr other ↦ λ s there.
                get-put_ne i j cell p.results (ground (arith, nat_beq_iff i j))
                ∙ inv.settled j h (ground (arith, before (holds j), after (holds j))) s there
          ];
          ended = λ h. inv.ended (ground (arith, before is_finished, after is_finished));
          taken = λ j h. inv.taken j (ground (arith, before (holds j), after (holds j)));
        }

  pub step-Inv : (p q : Pool R) → Inv p → Step apply_record records p q → Inv q
  step-Inv p q inv (Step.takes pre post fine slots more e) =
      subst Inv (sym e) (takes-Inv p inv pre post slots more)
  step-Inv p q inv (Step.ends pre post fine slots over e) =
      subst Inv (sym e) (ends-Inv p inv pre post slots over)
  step-Inv p q inv (Step.replies pre post i r cell fine slots at d e) =
      subst Inv (sym e) (replies-Inv p inv pre post i r cell slots at d)
  step-Inv p q inv (Step.stops pre post i r stop fine slots at d e) = subst Inv (sym e) (record {
    size = inv.size;
    bound = inv.bound;
    settled = inv.settled;
    ended = inv.ended;
    taken = inv.taken;
  })

  pub Reach-Inv :
      (concurrency k : ℕ) (p : Pool R) → Reach apply_record records concurrency k p → Inv p
  Reach-Inv concurrency zero p Reach.start = start-Inv concurrency
  Reach-Inv concurrency (suc k) p (Reach.later {p = q} reached step) =
      step-Inv q p (Reach-Inv concurrency k q reached) step
