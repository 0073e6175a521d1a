-- ===== src/Transform/Chain/Links.antt =====
-- The run of a chain: that it ends, which steps it has applied, and what its counts and its errors
-- say: reflowfy/execution/transformation_runner.py.
use reflowfy.Prelude.{
  ℕ, zero, suc, ◌+◌, ◌≤◌, ◌<◌, String, Bool, Option, none, some, List, [], ◌∷◌, ◌++◌, length,
  length-append, get_elem?, take, leb, map, if◌then◌else◌, ◌≡◌, ◌⊎◌, ◌∙◌, sym, ap, refl, arith,
  Bool-cases, Option-cases, inl, inr,
}
use mathlib.Core.Path.{subst}
use mathlib.Core.List.{map-append}
use reflowfy.Json.{Json}
use reflowfy.Transform.Skips.{Reasons}
use reflowfy.Transform.Chain.{
  AppliedStep, StepEnd, Transformation, Failure, Outcome, Stepped, output_error, check_step_output,
  run_step, applied_step, apply_loop, apply_transformations_iteratively,
}

-- Each step takes as many records as the one before it has given, from `n` to `m`.
abbrev pub Links : ℕ → List AppliedStep → ℕ → Type 0
Links n [] m = n ≡ m
Links n (s ∷ steps) m = (n ≡ s.records_in) × Links s.records_out steps m

Links-snoc :
    (n m : ℕ) (steps : List AppliedStep) (s : AppliedStep)
    → Links n steps m
    → m ≡ s.records_in
    → Links n (steps ++ s ∷ []) s.records_out
Links-snoc n m [] s h e = (h ∙ e, refl)
Links-snoc n m (t ∷ steps) s h e = (h.0, Links-snoc t.records_out m steps s h.1 e)

-- One list is the other with more at its end.
abbrev pub Extends {ℓ} : {A : Type ℓ} → List A → List A → Type ℓ
Extends {A = A} xs ys = (rest : List A) × (ys ≡ xs ++ rest)

take-snoc {ℓ} :
    {A : Type ℓ} (n : ℕ) (xs : List A) (x : A)
    → get_elem? xs n ≡ some x
    → take (suc n) xs ≡ take n xs ++ x ∷ []
take-snoc n [] x h = cc h
take-snoc zero (y ∷ xs) x h = cc h
take-snoc (suc n) (y ∷ xs) x h = ap (◌∷◌ y) (take-snoc n xs x h)

take_all {ℓ} : {A : Type ℓ} (n : ℕ) (xs : List A) → get_elem? xs n ≡ none → take n xs ≡ xs
take_all zero [] h = refl
take_all (suc n) [] h = refl
take_all zero (y ∷ xs) h = cc h
take_all (suc n) (y ∷ xs) h = ap (◌∷◌ y) (take_all n xs h)

take-extended {ℓ} :
    {A : Type ℓ} (n : ℕ) (xs rest : List A) (x : A)
    → get_elem? xs n ≡ some x
    → take (suc n) (xs ++ rest) ≡ take (suc n) xs
take-extended n [] rest x h = cc h
take-extended zero (y ∷ xs) rest x h = refl
take-extended (suc n) (y ∷ xs) rest x h = ap (◌∷◌ y) (take-extended n xs rest x h)

module _ {ℓ} {P : Type ℓ} (define_transformations : List Json → P → List (Transformation P))
    (checked : Bool) (max_steps : ℕ) (original : List Json)
    (grows : (i : ℕ) (t : Transformation P) (records out : List Json) (reasons : Option Reasons)
        (p q : P)
      → get_elem? (define_transformations original p) i ≡ some t
      → t.run records p ≡ StepEnd.gave out reasons q
      → Extends (define_transformations original p) (define_transformations original q)) where
  abbrev pub names : P → List String
  names p = map (λ (t : Transformation P). t.name) (define_transformations original p)

  -- How a run ends. A run that is done has applied the transformations of the final list, each once
  -- and in its order; a step that has failed comes after exactly those that are reported.
  abbrev pub Ends : Outcome P → Type 0
  Ends (Outcome.done transformed applied p) =
      (map (λ (s : AppliedStep). s.name) applied ≡ names p)
      × Links (length original) applied (length transformed)
      × (length applied ≤ max_steps)
  Ends (Outcome.failed (Failure.own_error message)) = Unit
  Ends (Outcome.failed Failure.too_many_steps) = Unit
  Ends (Outcome.failed (Failure.step_failed name message i n culprit applied)) =
      (i ≡ length applied) × Links (length original) applied n × (length applied < max_steps)
  Ends (Outcome.failed (Failure.bad_output name i c culprit applied)) =
      (i ≡ length applied)
      × ((n : ℕ) × Links (length original) applied n)
      × (length applied < max_steps)
  Ends (Outcome.skip_job reason) = Unit
  Ends Outcome.running = ⊥

  record State (transformed : List Json) (applied : List AppliedStep) (count : ℕ) (p : P)
      : Type 0 where
    counted : count ≡ length applied
    within : count ≤ max_steps
    linked : Links (length original) applied (length transformed)
    named :
        map (λ (s : AppliedStep). s.name) applied
        ≡ map (λ (t : Transformation P). t.name) (take count (define_transformations original p))

  -- A step that goes on has given what its transformation gives; one that ends the run ends it well.
  data Steps (t : Transformation P) (records : List Json) (p : P) : Stepped P → Type ℓ where
    went :
        {out : List Json} {reasons : Option Reasons} {q : P}
        → t.run records p ≡ StepEnd.gave out reasons q
        → Steps t records p (Stepped.goes out reasons q)
    ended : {outcome : Outcome P} → Ends outcome → Steps t records p (Stepped.ends outcome)

  module _ (t : Transformation P) (records : List Json) (p : P) (applied : List AppliedStep)
      (count : ℕ) (s : State records applied count p) (lt : count < max_steps) where
    error-Ends :
        (out : List Json) (is : List ℕ) (failure : Failure)
        → output_error t out count applied is ≡ some failure
        → Ends (Outcome.failed failure)
    error-Ends out [] failure h = cc h
    error-Ends out (i ∷ is) failure h =
        subst (λ (o : Option Failure). elim o [ none ↦ Unit | some f ↦ Ends (Outcome.failed f) ]) h
          (s.counted, (length records, s.linked), omega (arith, s.counted))

    output-Ends :
        (out : List Json) (failure : Failure)
        → check_step_output t out count applied ≡ some failure
        → Ends (Outcome.failed failure)
    unfolding check_step_output
    output-Ends out failure h = elim (Option-cases t.invalid) [
      | inl e ↦ let f = rw (e, check_step_output) at h in cc f
      | inr e ↦ error-Ends out (e.0 out) failure (rw (e.1, check_step_output) at h)
    ]

    step-Steps :
        (r : StepEnd P)
        → t.run records p ≡ r
        → Steps t records p (run_step checked t records p applied count)
    unfolding run_step
    step-Steps (StepEnd.gave out reasons q) e =
        elim (Option-cases (if checked then check_step_output t out count applied else none)) [
          | inl f ↦ rw (e, f, run_step) (Steps.went e)
          | inr f ↦ rw (e, f.1, run_step) (Steps.ended (output-Ends out f.0 (ground (arith, f.1))))
        ]
    step-Steps (StepEnd.own_error message) e = rw (e, run_step) (Steps.ended tt)
    step-Steps (StepEnd.skip_job reason) e = rw (e, run_step) (Steps.ended tt)
    step-Steps (StepEnd.skip_record reason) e =
        rw (e, run_step) (Steps.ended (s.counted, s.linked, omega (arith, s.counted)))
    step-Steps (StepEnd.record_failure index culprit error) e =
        rw (e, run_step) (Steps.ended (s.counted, s.linked, omega (arith, s.counted)))
    step-Steps (StepEnd.raised x) e =
        rw (e, run_step) (Steps.ended (s.counted, s.linked, omega (arith, s.counted)))

  Stepped-cases :
      (r : Stepped P)
      → ((outcome : Outcome P) × (r ≡ Stepped.ends outcome))
        ⊎ ((out : List Json) × (reasons : Option Reasons) × (q : P) × (r
              ≡ Stepped.goes out reasons q))
  Stepped-cases (Stepped.goes out reasons q) = inr (out, reasons, q, refl)
  Stepped-cases (Stepped.ends outcome) = inl (outcome, refl)

  ended-Ends :
      (t : Transformation P) (records : List Json) (p : P) (outcome : Outcome P)
      → Steps t records p (Stepped.ends outcome)
      → Ends outcome
  ended-Ends t records p outcome (Steps.ended h) = h

  went-gave :
      (t : Transformation P) (records : List Json) (p : P) (out : List Json)
      (reasons : Option Reasons) (q : P)
      → Steps t records p (Stepped.goes out reasons q)
      → t.run records p ≡ StepEnd.gave out reasons q
  went-gave t records p out reasons q (Steps.went h) = h

  next-State :
      (t : Transformation P) (records out : List Json) (reasons : Option Reasons)
      (applied : List AppliedStep) (count : ℕ) (p q : P)
      → State records applied count p
      → count < max_steps
      → get_elem? (define_transformations original p) count ≡ some t
      → t.run records p ≡ StepEnd.gave out reasons q
      → State out (applied ++ applied_step t records out reasons ∷ []) (suc count) q
  next-State t records out reasons applied count p q s lt at gave =
      let step = applied_step t records out reasons in
      let (rest, e) = grows count t records out reasons p q at gave in
      let first = λ (u : Transformation P). u.name in
      record {
        counted = omega (arith, s.counted, length-append applied (step ∷ []));
        within = omega arith;
        linked = Links-snoc (length original) (length records) applied step s.linked refl;
        named =
            map-append (λ (x : AppliedStep). x.name) applied (step ∷ [])
            ∙ ap (λ ns. ns ++ t.name ∷ []) s.named
            ∙ sym (map-append first (take count (define_transformations original p)) (t ∷ []))
            ∙ ap (map first) (
                sym (take-snoc count (define_transformations original p) t at)
                ∙ sym (take-extended count (define_transformations original p) rest t at)
                ∙ ap (take (suc count)) (sym e));
      }

  loop-Ends :
      (fuel : ℕ) (transformed : List Json) (applied : List AppliedStep) (count : ℕ) (p : P)
      → State transformed applied count p
      → max_steps < count + fuel
      → Ends (
          apply_loop define_transformations checked max_steps original fuel transformed applied
            count p)
  unfolding apply_loop
  loop-Ends zero transformed applied count p s h = absurd (omega (arith, s.within))
  loop-Ends (suc fuel) transformed applied count p s h =
      elim (Option-cases (get_elem? (define_transformations original p) count)) [
        | inl e ↦
            rw (e, apply_loop)
              (
                s.named ∙ ap (map (λ (t : Transformation P). t.name)) (take_all count _ e),
                s.linked,
                omega (arith, s.counted, s.within),
              )
        | inr e ↦ elim (Bool-cases (leb max_steps count)) [
          | inl l ↦ rw (e.1, l, apply_loop) tt
          | inr l ↦
              let t = e.0 in
              let lt : count < max_steps = ground arith in
              let stepped =
                step-Steps t transformed p applied count s lt (t.run transformed p) refl in
              elim (Stepped-cases (run_step checked t transformed p applied count)) [
                | inl r ↦
                    rw (e.1, l, r.1, apply_loop)
                      (ended-Ends t transformed p r.0 (rw (r.1) at stepped))
                | inr r ↦
                    let (out, reasons, q, eq) = r in
                    rw (e.1, l, eq, apply_loop)
                      (loop-Ends fuel out (applied ++ applied_step t transformed out reasons ∷ [])
                        (suc count) q
                        (next-State t transformed out reasons applied count p q s lt e.1
                          (went-gave t transformed p out reasons q (rw eq at stepped)))
                        (omega arith))
              ]
        ]
      ]

  -- The run of a chain ends within max_steps rounds and one, and it ends well: a run that is done
  -- has applied the transformations of the final list, each once and in its order, at most max_steps
  -- of them, and each has taken as many records as the one before it has given, from the number of
  -- the original records to that of the transformed ones. An error that the runner raises for a step
  -- has the number of the steps before it for its index and reports those steps, which are linked in
  -- the same way; where the step itself has failed, it gives the number of records that the step has
  -- taken. The list of transformations only grows while the run goes on.
  pub apply_transformations-Ends :
      (p : P)
      → Ends (apply_transformations_iteratively define_transformations checked max_steps original p)
  unfolding apply_transformations_iteratively
  apply_transformations-Ends p =
      loop-Ends (suc max_steps) original [] 0 p
        (record { counted = refl; within = omega arith; linked = refl; named = refl }) (omega arith)
