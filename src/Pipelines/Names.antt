-- ===== src/Pipelines/Names.antt =====
-- Which schedules a pipeline may declare: `_validate_schedules` of
-- reflowfy/core/abstract_pipeline.py.
use reflowfy.Prelude.{
  String, Bool, true, false, Option, none, List, [], ◌∷◌, map, string_eq, mem, ◌≡◌, ◌↔◌, inl, inr,
  refl, arith, Bool-cases, IsDistinct, All,
}
use mathlib.Core.Option.{some-ne-none}
use reflowfy.Schedules.{ScheduledRun}
use reflowfy.Pipelines.{Refused, is_valid_in, validate_schedules}

abbrev pub name_of : ScheduledRun → String
name_of r = r.name

abbrev Free : List String → List ScheduledRun → Type 0
Free seen runs = All (λ r. mem (name_of r) seen ≡ false) runs

nothing_seen : (runs : List ScheduledRun) → Free [] runs
nothing_seen [] = tt
nothing_seen (r ∷ runs) = (refl, nothing_seen runs)

module _ (is_valid : Option (String → Bool)) where
  abbrev pub IsValid : ScheduledRun → Type 0
  IsValid r = is_valid_in is_valid r.cron ≡ true

  seen-apart :
      (name : String) (seen : List String) (runs : List ScheduledRun)
      → Free (name ∷ seen) runs
      → Free seen runs × (mem name (map name_of runs) ≡ false)
  seen-apart name seen [] h = (tt, refl)
  seen-apart name seen (r ∷ runs) h =
      let (free, apart) = seen-apart name seen runs h.1 in
      (
        (ground (arith, h.0), free),
        ground (arith, h.0, apart, string_eq.decides name r.name, string_eq.decides r.name name),
      )

  apart-seen :
      (name : String) (seen : List String) (runs : List ScheduledRun)
      → Free seen runs
      → mem name (map name_of runs) ≡ false
      → Free (name ∷ seen) runs
  apart-seen name seen [] free apart = tt
  apart-seen name seen (r ∷ runs) free apart = (
    ground (arith, free.0, apart, string_eq.decides name r.name, string_eq.decides r.name name),
    apart-seen name seen runs free.1 (ground (arith, apart)),
  )

  validate_schedules-accepts :
      (seen : List String) (runs : List ScheduledRun)
      → validate_schedules is_valid seen runs ≡ none
      → IsDistinct (map name_of runs) × Free seen runs × All IsValid runs
  unfolding validate_schedules
  validate_schedules-accepts seen [] h = (tt, tt, tt)
  validate_schedules-accepts seen (r ∷ runs) h = elim (Bool-cases (mem r.name seen)) [
    | inl m ↦
        absurd (some-ne-none (Refused.duplicate_name r.name) (simp (m, validate_schedules) at h))
    | inr m ↦ elim (Bool-cases (is_valid_in is_valid r.cron)) [
      | inr v ↦
          absurd (some-ne-none (Refused.invalid_cron r.name) (simp (m, v, validate_schedules) at h))
      | inl v ↦
          let (distinct, free, valid) =
            validate_schedules-accepts (r.name ∷ seen) runs
              (simp (m, v, validate_schedules) at h) in
          let (old, apart) = seen-apart r.name seen runs free in
          ((apart, distinct), (m, old), (v, valid))
    ]
  ]

  accepts-validate_schedules :
      (seen : List String) (runs : List ScheduledRun)
      → IsDistinct (map name_of runs)
      → Free seen runs
      → All IsValid runs
      → validate_schedules is_valid seen runs ≡ none
  unfolding validate_schedules
  accepts-validate_schedules seen [] distinct free valid = refl
  accepts-validate_schedules seen (r ∷ runs) distinct free valid =
      simp (free.0, valid.0, validate_schedules)
        (accepts-validate_schedules (r.name ∷ seen) runs distinct.1
          (apart-seen r.name seen runs free.1 distinct.0) valid.1)

  -- A pipeline may declare schedules exactly if their names are distinct and all of their cron
  -- expressions are valid; where croniter is not installed, any expression is.
  pub validate_schedules_correct :
      (runs : List ScheduledRun)
      → (validate_schedules is_valid [] runs ≡ none)
        ↔ (IsDistinct (map name_of runs) × All IsValid runs)
  validate_schedules_correct runs = (
    (λ h. let (distinct, free, valid) = validate_schedules-accepts [] runs h in (distinct, valid)),
    (λ h. accepts-validate_schedules [] runs h.0 (nothing_seen runs) h.1),
  )
