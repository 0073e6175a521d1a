-- ===== src/Transform/Chain.antt =====
-- The chain of a job's transformations: `apply_transformations_iteratively_async`, its steps and their
-- errors in reflowfy/execution/transformation_runner.py. What the user's code does at given records and
-- parameters is a function of each transformation, and `define_transformations` one of the pipeline; the
-- time that a step takes is left out. Records are JSON, as job_runner has made them.
pub mod Links
use reflowfy.Prelude.{
  ℕ, zero, suc, String, Bool, true, false, Option, none, some, List, [], ◌∷◌, ◌++◌, length,
  get_elem?, take, leb, if◌then◌else◌, min,
}
use reflowfy.Json.{Json, Fields}
use reflowfy.Json.Dict.{get}
use reflowfy.Transform.Skips.{Reasons}

pub data Mode : Type 0 where
  sync : Mode
  asynchronous : Mode
  per_record : (concurrency : ℕ) → Mode
  validate : Mode

pub record AppliedStep : Type 0 where
  pub name : String
  pub records_in : ℕ
  pub records_out : ℕ
  pub mode : Mode
  pub skip_reasons : Option Reasons

-- An exception of the user's code: a KeyError with its first argument, or another one.
pub data UserError : Type 0 where
  key_error : (missing : String) (text : String) → UserError
  other : (text : String) → UserError

-- How the records of one step end, with the parameters that the step leaves. `own_error` is a
-- TransformationError of the user's.
pub data StepEnd {ℓ} (P : Type ℓ) : Type ℓ where
  gave : List Json → Option Reasons → P → StepEnd P
  own_error : (message : String) → StepEnd P
  skip_job : (reason : String) → StepEnd P
  skip_record : (reason : String) → StepEnd P
  record_failure : (index : ℕ) → (culprit : Json) → (error : String) → StepEnd P
  raised : UserError → StepEnd P

-- `invalid` gives the indices of the records that do not match the type that the step returns, if it
-- names one.
pub record Transformation {ℓ} (P : Type ℓ) : Type ℓ where
  pub name : String
  pub mode : Mode
  pub run : List Json → P → StepEnd P
  pub invalid : Option (List Json → List ℕ)

-- `step_failed` has the step's index, the count of its records, the record that is to blame, and the
-- steps before it; `bad_output` is a StepOutputError.
pub data Failure : Type 0 where
  own_error : (message : String) → Failure
  too_many_steps : Failure
  step_failed :
      (name message : String)
      → (step_index records_in : ℕ) → (culprit : Option (ℕ × Json))
      → (applied_steps : List AppliedStep) → Failure
  bad_output :
      (name : String)
      → (step_index culprit_index : ℕ) → (culprit : Option Json)
      → (applied_steps : List AppliedStep) → Failure

-- `running` is the loop out of fuel.
pub data Outcome {ℓ} (P : Type ℓ) : Type ℓ where
  done : (transformed : List Json) → (applied : List AppliedStep) → P → Outcome P
  failed : Failure → Outcome P
  skip_job : (reason : String) → Outcome P
  running : Outcome P

-- The first record from `i` on that is a dict without the key.
unfoldable pub find_missing : String → ℕ → List Json → Option (ℕ × Json)
unfolding get
find_missing key i [] = none
find_missing key i (Json.obj d ∷ records) =
    let rest = find_missing key (suc i) records in
    elim (get key d) [ none ↦ some (i, Json.obj d) | some v ↦ rest ]
find_missing key i (Json.null ∷ records) = find_missing key (suc i) records
find_missing key i (Json.bool b ∷ records) = find_missing key (suc i) records
find_missing key i (Json.num n ∷ records) = find_missing key (suc i) records
find_missing key i (Json.float m e ∷ records) = find_missing key (suc i) records
find_missing key i (Json.str s ∷ records) = find_missing key (suc i) records
find_missing key i (Json.arr xs ∷ records) = find_missing key (suc i) records

abbrev pub scan_limit : ℕ
scan_limit = 10000

unfoldable pub find_culprit_record : UserError → List Json → Option (ℕ × Json)
unfolding find_missing
find_culprit_record (UserError.key_error missing text) records =
    find_missing missing 0 (take scan_limit records)
find_culprit_record (UserError.other text) records = none

abbrev smallest : ℕ → List ℕ → ℕ
smallest n [] = n
smallest n (m ∷ ms) = smallest (min n m) ms

abbrev text_of : UserError → String
text_of (UserError.key_error missing text) = text
text_of (UserError.other text) = text

-- One step: what it gives, or how the run ends.
pub data Stepped {ℓ} (P : Type ℓ) : Type ℓ where
  goes : List Json → Option Reasons → P → Stepped P
  ends : Outcome P → Stepped P

module _ {ℓ} {P : Type ℓ} where
  -- The StepOutputError for the indices of the records that do not match.
  abbrev pub output_error :
      Transformation P → List Json → (step_index : ℕ) → List AppliedStep → List ℕ → Option Failure
  output_error t records step_index applied [] = none
  output_error t records step_index applied (i ∷ is) =
      let culprit_index = smallest i is in
      some (
        Failure.bad_output t.name step_index culprit_index (get_elem? records culprit_index)
          applied)

  unfoldable pub check_step_output :
      Transformation P → List Json → (step_index : ℕ) → List AppliedStep → Option Failure
  check_step_output t records step_index applied = elim t.invalid [
    | none ↦ none
    | some invalid ↦ output_error t records step_index applied (invalid records)
  ]

  -- `checked` is the pipeline's validate_steps.
  unfoldable pub run_step :
      (checked : Bool)
      → Transformation P
      → List Json
      → P
      → List AppliedStep
      → (count : ℕ) → Stepped P
  unfolding check_step_output find_culprit_record
  run_step checked t records p applied count = elim (t.run records p) [
    | StepEnd.gave out reasons q ↦
        elim (if checked then check_step_output t out count applied else none) [
          | none ↦ Stepped.goes out reasons q
          | some failure ↦ Stepped.ends (Outcome.failed failure)
        ]
    | StepEnd.own_error message ↦ Stepped.ends (Outcome.failed (Failure.own_error message))
    | StepEnd.skip_job reason ↦ Stepped.ends (Outcome.skip_job reason)
    | StepEnd.skip_record reason ↦
        Stepped.ends
          (Outcome.failed (Failure.step_failed t.name reason count (length records) none applied))
    | StepEnd.record_failure index culprit error ↦ Stepped.ends (
        Outcome.failed
          (Failure.step_failed t.name error count (length records) (some (index, culprit)) applied))
    | StepEnd.raised e ↦ Stepped.ends (
        Outcome.failed (
          Failure.step_failed t.name (text_of e) count (length records)
            (find_culprit_record e records) applied))
  ]

  abbrev pub applied_step : Transformation P → List Json → List Json → Option Reasons → AppliedStep
  applied_step t records out reasons = record {
    name = t.name;
    records_in = length records;
    records_out = length out;
    mode = t.mode;
    skip_reasons = reasons;
  }

  module _ (define_transformations : List Json → P → List (Transformation P)) (checked : Bool)
      (max_steps : ℕ) (original : List Json) where
    -- No transformation at `count` is len(current) <= applied_count.
    unfoldable pub apply_loop :
        (fuel : ℕ) → List Json → List AppliedStep → (count : ℕ) → P → Outcome P
    apply_loop zero transformed applied count p = Outcome.running
    apply_loop (suc fuel) transformed applied count p =
        elim (get_elem? (define_transformations original p) count) [
          | none ↦ Outcome.done transformed applied p
          | some t ↦ elim (leb max_steps count) [
            | true ↦ Outcome.failed Failure.too_many_steps
            | false ↦ elim (run_step checked t transformed p applied count) [
              | Stepped.ends outcome ↦ outcome
              | Stepped.goes out reasons q ↦
                  apply_loop fuel out (applied ++ applied_step t transformed out reasons ∷ [])
                    (suc count) q
            ]
          ]
        ]

    unfoldable pub apply_transformations_iteratively : P → Outcome P
    unfolding apply_loop
    apply_transformations_iteratively p = apply_loop (suc max_steps) original [] 0 p
