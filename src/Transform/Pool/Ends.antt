-- ===== src/Transform/Pool/Ends.antt =====
-- A run of the pool ends: `_apply_all` of reflowfy/transformations/base.py, whatever the schedule.
use reflowfy.Prelude.{
  ℕ, zero, suc, ◌+◌, ◌-◌, ◌*◌, ◌≤◌, ◌<◌, true, false, Option, none, some, List, [], ◌∷◌, ◌++◌,
  length, get_elem?, min, ◌≡◌, ◌⊎◌, ◌∙◌, ap, refl, arith, nat_beq_iff, Bool-cases, Option-cases,
  inl, inr, ltb, ltb→lt,
}
use reflowfy.Transform.Pool.{
  CallEnd, Cell, Stop, ApplyEnd, Slot, Pool, Step, Reach, repeat, apply_one, start_pool,
  all_finished,
}
use reflowfy.Transform.Pool.Inv.{Inv, holds, some_slot, some_slot-append, Reach-Inv}
use reflowfy.Transform.Pool.Order.{Raised, Reach-Raised}

-- The steps that a worker may still take without another record.
abbrev weight : List Slot → ℕ
weight [] = 0
weight (Slot.idle ∷ slots) = 1 + weight slots
weight (Slot.busy i ∷ slots) = 2 + weight slots
weight (Slot.finished ∷ slots) = weight slots

weight_idle :
    (pre post : List Slot)
    → weight (pre ++ Slot.idle ∷ post) ≡ 1 + weight (pre ++ Slot.finished ∷ post)
weight_idle [] post = refl
weight_idle (Slot.idle ∷ pre) post = omega (arith, weight_idle pre post)
weight_idle (Slot.busy i ∷ pre) post = omega (arith, weight_idle pre post)
weight_idle (Slot.finished ∷ pre) post = weight_idle pre post

weight_busy :
    (i : ℕ) (pre post : List Slot)
    → weight (pre ++ Slot.busy i ∷ post) ≡ 2 + weight (pre ++ Slot.finished ∷ post)
weight_busy i [] post = refl
weight_busy i (Slot.idle ∷ pre) post = omega (arith, weight_busy i pre post)
weight_busy i (Slot.busy j ∷ pre) post = omega (arith, weight_busy i pre post)
weight_busy i (Slot.finished ∷ pre) post = weight_busy i pre post

weight-repeat : (n : ℕ) → weight (repeat n Slot.idle) ≡ n
unfolding repeat
weight-repeat zero = refl
weight-repeat (suc n) = omega (arith, weight-repeat n)

-- The first worker that has not ended.
abbrev Working : List Slot → Type 0
Working slots =
    (pre : List Slot) × (post : List Slot) × ((slots ≡ pre ++ Slot.idle ∷ post)
      ⊎ ((i : ℕ) × (slots ≡ pre ++ Slot.busy i ∷ post)))

working : (slots : List Slot) → all_finished slots ≡ false → Working slots
working [] h = cc h
working (Slot.idle ∷ slots) h = ([], slots, inl refl)
working (Slot.busy i ∷ slots) h = ([], slots, inr (i, refl))
working (Slot.finished ∷ slots) h =
    let (pre, post, w) = working slots h in
    (
      Slot.finished ∷ pre,
      post,
      elim w [
        | inl e ↦ inl (ap (◌∷◌ Slot.finished) e)
        | inr e ↦ inr (e.0, ap (◌∷◌ Slot.finished) e.1)
      ],
    )

get_there {ℓ} :
    {A : Type ℓ} (i : ℕ) (xs : List A) → i < length xs → (x : A) × (get_elem? xs i ≡ some x)
get_there i [] h = absurd (omega arith)
get_there zero (x ∷ xs) h = (x, refl)
get_there (suc i) (x ∷ xs) h = get_there i xs (omega arith)

ApplyEnd-cases {ℓ} :
    {R : Type ℓ} (r : ApplyEnd R)
    → ((cell : Cell R) × (r ≡ ApplyEnd.done cell)) ⊎ ((stop : Stop R) × (r ≡ ApplyEnd.stops stop))
ApplyEnd-cases (ApplyEnd.done cell) = inl (cell, refl)
ApplyEnd-cases (ApplyEnd.stops stop) = inr (stop, refl)

module _ {ℓ} {R : Type ℓ} (apply_record : R → CallEnd R) (records : List R) where
  abbrev left_of : Option (Stop R) → List Slot → ℕ → ℕ
  left_of none slots next = weight slots + 2 * (length records - next)
  left_of (some stop) slots next = 0

  -- The steps that are left.
  abbrev left : Pool R → ℕ
  left p = left_of p.stopped p.slots p.next

  running :
      (o : Option (Stop R)) (slots : List Slot) (next : ℕ)
      → o ≡ none
      → left_of o slots next ≡ weight slots + 2 * (length records - next)
  running none slots next h = refl
  running (some stop) slots next h = cc h

  left_less : (p q : Pool R) → Step apply_record records p q → suc (left q) ≤ left p
  left_less p q (Step.takes pre post fine slots more e) = omega (
    arith,
    ap left e,
    running p.stopped p.slots p.next fine,
    running p.stopped (pre ++ Slot.busy p.next ∷ post) (suc p.next) fine,
    ap weight slots,
    weight_idle pre post,
    weight_busy p.next pre post,
  )
  left_less p q (Step.ends pre post fine slots over e) = omega (
    arith,
    ap left e,
    running p.stopped p.slots p.next fine,
    running p.stopped (pre ++ Slot.finished ∷ post) p.next fine,
    ap weight slots,
    weight_idle pre post,
  )
  left_less p q (Step.replies pre post i r cell fine slots at d e) = omega (
    arith,
    ap left e,
    running p.stopped p.slots p.next fine,
    running p.stopped (pre ++ Slot.idle ∷ post) p.next fine,
    ap weight slots,
    weight_idle pre post,
    weight_busy i pre post,
  )
  left_less p q (Step.stops pre post i r stop fine slots at d e) = omega (
    arith,
    ap left e,
    running p.stopped p.slots p.next fine,
    ap weight slots,
    weight_busy i pre post,
  )

  Reach-left :
      (concurrency k : ℕ) (p : Pool R)
      → Reach apply_record records concurrency k p
      → k + left p ≤ 2 * length records + min concurrency (length records)
  unfolding start_pool
  Reach-left concurrency zero p Reach.start =
      omega (arith, weight-repeat (min concurrency (length records)))
  Reach-left concurrency (suc k) p (Reach.later {p = q} reached step) =
      omega (arith, left_less q p step, Reach-left concurrency k q reached)

  -- A pool that has neither ended nor stopped has a step.
  abbrev pub Moves : Pool R → Type ℓ
  Moves p = (q : Pool R) × Step apply_record records p q

  idle-Moves :
      (p : Pool R) (pre post : List Slot)
      → Inv apply_record records p
      → p.stopped ≡ none
      → p.slots ≡ pre ++ Slot.idle ∷ post
      → Moves p
  idle-Moves p pre post inv fine slots = elim (Bool-cases (ltb p.next (length records))) [
    | inl more ↦ (_, Step.takes pre post fine slots (ltb→lt p.next (length records) more) refl)
    | inr over ↦ (_, Step.ends pre post fine slots (ground (arith, inv.bound)) refl)
  ]

  busy-Moves :
      (p : Pool R) (pre post : List Slot) (i : ℕ)
      → Inv apply_record records p
      → p.stopped ≡ none
      → p.slots ≡ pre ++ Slot.busy i ∷ post
      → Moves p
  busy-Moves p pre post i inv fine slots =
      let held : some_slot (holds i) p.slots ≡ true =
        ap (some_slot (holds i)) slots
        ∙ some_slot-append (holds i) pre (Slot.busy i) post
        ∙ ground (arith, nat_beq_iff i i) in
      let (r, at) = get_there i records (omega (arith, inv.taken i held, inv.bound)) in
      elim (ApplyEnd-cases (apply_one apply_record i r)) [
        | inl d ↦ (_, Step.replies pre post i r d.0 fine slots at d.1 refl)
        | inr d ↦ (_, Step.stops pre post i r d.0 fine slots at d.1 refl)
      ]

  -- A run of the pool ends: no schedule has more than three steps for each record. A pool that it has
  -- reached has all its workers ended; or it has stopped, and what it raises is what the call of one of
  -- the records has raised: a SkipJob or a RecordFailure as it is, and any other error or a timeout as a
  -- failure with that record and its index; or a worker has a step to take.
  pub apply_all_ends :
      (concurrency k : ℕ) (p : Pool R)
      → Reach apply_record records concurrency k p
      → (k ≤ 3 * length records)
        × ((all_finished p.slots ≡ true)
            ⊎ (((stop : Stop R) × (p.stopped ≡ some stop) × Raised apply_record records stop)
                ⊎ Moves p))
  apply_all_ends concurrency k p reached =
      let inv = Reach-Inv apply_record records concurrency k p reached in
      (
        omega (arith, Reach-left concurrency k p reached),
        elim (Bool-cases (all_finished p.slots)) [
          | inl over ↦ inl over
          | inr more ↦ inr (elim (Option-cases p.stopped) [
            | inr stop ↦ inl (
              stop.0,
              stop.1,
              Reach-Raised apply_record records concurrency k p stop.0 reached stop.1,
            )
            | inl fine ↦
                let (pre, post, w) = working p.slots more in
                inr (elim w [
                  | inl e ↦ idle-Moves p pre post inv fine e
                  | inr e ↦ busy-Moves p pre post e.0 inv fine e.1
                ])
          ])
        ],
      )
