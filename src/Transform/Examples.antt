-- ===== src/Transform/Examples.antt =====
-- Two records and two workers, of which the second ends first; and reasons that are counted.
use reflowfy.Prelude.{
  ℕ, zero, suc, get_elem?, String, false, true, none, some, List, [], ◌∷◌, Option, ◌≡◌, ◌≤◌, ◌⊎◌,
  ◌*◌, if◌then◌else◌, ◌==◌, string_eq, sym, ap, ◌∙◌, refl, arith, Bool, length, All,
}
use mathlib.Core.Path.{subst}
use reflowfy.Json.{Json}
use reflowfy.Transform.Skips.{Reasons}
use reflowfy.Transform.Chain.{
  Mode, StepEnd, Transformation, Outcome, run_step, apply_transformations_iteratively,
}
use reflowfy.Transform.Chain.Links.{Extends, Ends, apply_transformations-Ends}
use Prim.Native.String.{count}
use reflowfy.Transform.Skips.Bounds.{total, count_all, count_skip_reasons_bounded}
use reflowfy.Transform.Pool.{
  CallEnd, Slot, Cell, Stop, Pool, Step, Reach, put, repeat, apply_one, start_pool, all_finished,
  collect,
}
use reflowfy.Transform.Pool.Order.{apply_records_ordered, Raised}
use reflowfy.Transform.Pool.Ends.{apply_all_ends, Moves}

abbrev outcome : String → CallEnd String
outcome r = if r == "bad" then CallEnd.skip_record "bad record" else CallEnd.returned r

abbrev rows : List String
rows = "bad" ∷ "good" ∷ []

abbrev last_pool : Pool String
last_pool = record {
  next = 2;
  slots = Slot.finished ∷ Slot.finished ∷ [];
  results = Cell.skipped "bad record" ∷ Cell.kept "good" ∷ [];
  stopped = none;
}

schedule : Reach outcome rows 2 6 last_pool
unfolding start_pool repeat put apply_one
schedule =
    Reach.later
      (Reach.later
        (Reach.later
          (Reach.later
            (Reach.later
              (Reach.later Reach.start
                (Step.takes [] (Slot.idle ∷ []) refl refl (omega arith) refl))
              (Step.takes (Slot.busy 0 ∷ []) [] refl refl (omega arith) refl))
            (Step.replies (Slot.busy 0 ∷ []) [] 1 "good" (Cell.kept "good") refl refl refl refl
              refl))
          (Step.replies [] (Slot.idle ∷ []) 0 "bad" (Cell.skipped "bad record") refl refl refl refl
            refl))
        (Step.ends [] (Slot.idle ∷ []) refl refl refl refl))
      (Step.ends (Slot.finished ∷ []) [] refl refl refl refl)

apply_records_ordered_example :
    let out = collect last_pool.results [] [] in (out.0 ≡ "good" ∷ []) × (total out.1 ≡ 1)
apply_records_ordered_example =
    apply_records_ordered outcome rows 2 6 last_pool (omega arith) schedule refl

apply_all_ends_example :
    (6 ≤ 3 * length rows)
    × ((all_finished last_pool.slots ≡ true)
        ⊎ (((stop : Stop String) × (last_pool.stopped ≡ some stop) × Raised outcome rows stop)
            ⊎ Moves outcome rows last_pool))
apply_all_ends_example = apply_all_ends outcome rows 2 6 last_pool schedule

-- A first transformation that turns on the second.
abbrev first_step : Transformation Bool
first_step = record {
  name = "first";
  mode = Mode.sync;
  run = λ rs p. StepEnd.gave rs none true;
  invalid = none;
}

abbrev second_step : Transformation Bool
second_step = record {
  name = "second";
  mode = Mode.sync;
  run = λ rs p. StepEnd.gave [] none true;
  invalid = none;
}

abbrev steps : List Json → Bool → List (Transformation Bool)
steps rs true = first_step ∷ second_step ∷ []
steps rs false = first_step ∷ []

original : List Json
original = Json.null ∷ []

run_of_both :
    apply_transformations_iteratively steps false 3 original false
    ≡ Outcome.done []
        (record {
          name = "first";
          records_in = 1;
          records_out = 1;
          mode = Mode.sync;
          skip_reasons = none;
        }
          ∷ record {
            name = "second";
            records_in = 1;
            records_out = 0;
            mode = Mode.sync;
            skip_reasons = none;
          }
          ∷ [])
        true
unfolding apply_transformations_iteratively run_step original
run_of_both = refl

abbrev left_by : StepEnd Bool → Bool
left_by (StepEnd.gave out reasons q) = q
left_by _ = false

turns_on :
    (t u : Transformation Bool) (records out : List Json) (reasons : Option Reasons) (p q : Bool)
    → some t ≡ some u
    → left_by (t.run records p) ≡ true
    → u.run records p ≡ StepEnd.gave out reasons q
    → true ≡ q
turns_on t u records out reasons p q at on gave =
    sym on
    ∙ ap
        (λ (o : Option (Transformation Bool)). elim o [
          | none ↦ false
          | some x ↦ left_by (x.run records p)
        ])
        at
    ∙ ap left_by gave

steps_grow :
    (i : ℕ) (t : Transformation Bool) (records out : List Json) (reasons : Option Reasons)
    (p q : Bool)
    → get_elem? (steps original p) i ≡ some t
    → t.run records p ≡ StepEnd.gave out reasons q
    → Extends (steps original p) (steps original q)
steps_grow zero t records out reasons true q at gave =
    subst (λ b. Extends (steps original true) (steps original b))
      (turns_on first_step t records out reasons true q at refl gave) ([], refl)
steps_grow zero t records out reasons false q at gave =
    subst (λ b. Extends (steps original false) (steps original b))
      (turns_on first_step t records out reasons false q at refl gave) (second_step ∷ [], refl)
steps_grow (suc zero) t records out reasons true q at gave =
    subst (λ b. Extends (steps original true) (steps original b))
      (turns_on second_step t records out reasons true q at refl gave) ([], refl)
steps_grow (suc (suc i)) t records out reasons true q at gave = cc at
steps_grow (suc i) t records out reasons false q at gave = cc at

apply_transformations-Ends_example :
    Ends steps false 3 original steps_grow
      (apply_transformations_iteratively steps false 3 original false)
apply_transformations-Ends_example =
    apply_transformations-Ends steps false 3 original steps_grow false

count_skip_reasons_bounded_example :
    let r = count_all [] (("no email", 2) ∷ ("", 1) ∷ ("no email", 3) ∷ []) in
    (length r ≤ 21) × All (λ e. count e.0 ≤ 200) r × (total r ≡ 6)
count_skip_reasons_bounded_example =
    count_skip_reasons_bounded (("no email", 2) ∷ ("", 1) ∷ ("no email", 3) ∷ [])
