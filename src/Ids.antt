-- ===== src/Ids.antt =====
-- The plan of an id-based pipeline: `define_jobs`, `resolve_for_ids` and `resolve_source` of
-- reflowfy/core/id_based_pipeline.py, with `chunk` of reflowfy/execution/job_runner.py. A pipeline's
-- define_source is a function that returns what it returns and the parameters as it leaves them.
pub mod Batches
mod Examples
use reflowfy.Prelude.{
  ℕ, String, Bool, true, false, Option, none, some, List, [], ◌∷◌, ltb, if◌then◌else◌, chunks,
}
use reflowfy.Json.{Json, Items, Fields}
use reflowfy.Json.Dict.{get, set, drop_key, items, values}

-- None for ValueError.
unfoldable pub chunk {ℓ} : {A : Type ℓ} → List A → ℕ → Option (List (List A))
unfolding chunks
chunk records size = if ltb size 1 then none else some (chunks size records)

-- What define_source may return.
pub data Returned {ℓ} (S : Type ℓ) : Type ℓ where
  source : S → Returned S
  records : List Json → Returned S
  other : Returned S

-- A source with its `job_params`.
pub record PlannedSource {ℓ} (S : Type ℓ) : Type ℓ where
  pub source : S
  pub job_params : Fields

-- The sources that the generator yields, until it ends or raises.
pub record SourcePlan {ℓ} (S : Type ℓ) : Type ℓ where
  pub sources : List (PlannedSource S)
  pub raised : Bool

pub record Resolved {ℓ} (S : Type ℓ) : Type ℓ where
  pub source : S
  pub current_ids : List Json
  pub source_enrichments : Fields
  pub batch_params : Fields

-- `{k: d[k] for k in d if k not in base}`
unfoldable pub enrichments : Fields → Fields → Fields
unfolding get
enrichments base Fields.end = Fields.end
enrichments base (Fields.field k v d) =
    let rest = enrichments base d in
    elim (get k base) [ none ↦ Fields.field k v rest | some w ↦ rest ]

abbrev first_or_null : List Json → Json
first_or_null [] = Json.null
first_or_null (x ∷ xs) = x

-- The parameters of one batch, a copy of the pipeline's.
unfoldable pub params_for : Fields → List Json → Fields
unfolding set
params_for runtime_params ids_batch =
    set "current_id" (first_or_null ids_batch)
      (set "current_ids" (Json.arr (items ids_batch)) runtime_params)

-- The errors on `input_ids` that validate_parameters adds.
unfoldable pub input_ids_errors : Option Json → List String
input_ids_errors none = []
input_ids_errors (some Json.null) = []
input_ids_errors (some (Json.arr Items.nil)) = "Parameter 'input_ids' must not be empty" ∷ []
input_ids_errors (some (Json.arr (Items.cons x xs))) = []
input_ids_errors (some (Json.bool b)) = "Parameter 'input_ids' must be a list" ∷ []
input_ids_errors (some (Json.num n)) = "Parameter 'input_ids' must be a list" ∷ []
input_ids_errors (some (Json.float m e)) = "Parameter 'input_ids' must be a list" ∷ []
input_ids_errors (some (Json.str s)) = "Parameter 'input_ids' must be a list" ∷ []
input_ids_errors (some (Json.obj d)) = "Parameter 'input_ids' must be a list" ∷ []

abbrev listed : Option Json → List Json
listed (some (Json.arr xs)) = values xs
listed _ = []

-- `static` is StaticSource.
module _ {ℓ} {S : Type ℓ} (static : List Json → S)
    (define_source : Fields → Returned S × Fields) where
  -- None for TypeError.
  abbrev resolve_source : Fields → Option (S × Fields)
  resolve_source batch_params =
      let (returned, left) = define_source batch_params in
      elim returned [
        | Returned.source s ↦ some (s, left)
        | Returned.records rs ↦ some (static rs, left)
        | Returned.other ↦ none
      ]

  unfoldable pub resolve_for_ids : Fields → List Json → Option (Resolved S)
  unfolding params_for enrichments
  resolve_for_ids runtime_params ids_batch =
      elim (resolve_source (params_for runtime_params ids_batch)) [
        | none ↦ none
        | some resolved ↦ some (record {
          source = resolved.0;
          current_ids = ids_batch;
          source_enrichments = enrichments runtime_params resolved.1;
          batch_params = resolved.1;
        })
      ]

  unfoldable pub plan_batches : Fields → List (List Json) → SourcePlan S
  unfolding drop_key resolve_for_ids
  plan_batches runtime_params [] = record { sources = []; raised = false }
  plan_batches runtime_params (ids_batch ∷ batches) =
      let rest = plan_batches runtime_params batches in
      elim (resolve_for_ids runtime_params ids_batch) [
        | none ↦ record { sources = []; raised = true }
        | some r ↦ record rest {
          sources =
              record { source = r.source; job_params = drop_key "input_ids" r.batch_params }
              ∷ rest.sources;
        }
      ]

  -- `input_ids` is a list, as validate_parameters has made sure, or missing.
  unfoldable pub define_jobs : ℕ → Fields → SourcePlan S
  unfolding get chunk plan_batches
  define_jobs ids_batch_size runtime_params =
      elim (chunk (listed (get "input_ids" runtime_params)) ids_batch_size) [
        | none ↦ record { sources = []; raised = true }
        | some batches ↦ plan_batches runtime_params batches
      ]
