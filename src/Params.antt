-- ===== src/Params.antt =====
-- The parameters of a job on their way from the plan to the worker: ExecutionContext and the flat
-- runtime_params of reflowfy/core/execution_context.py, the payload that `_plan_and_dispatch` and
-- `build_job_payload` of reflowfy/reflow_manager/pipeline_runner.py put together, and its reading by
-- `_execute_job_inner` of reflowfy/worker/executor.py. A dict is the fields of a JSON object.
pub mod Examples
pub mod RoundTrip
use reflowfy.Prelude.{
  ℕ, String, Bool, true, false, not, Option, none, some, List, [], ◌∷◌, if◌then◌else◌, ◌==◌, nat_eq,
  string_eq,
}
use reflowfy.Json.{Json, Items, Fields}
use reflowfy.Json.Dict.{get, set, merge, drop_key}

-- `created_at` is in isoformat.
pub record ExecutionContext : Type 0 where
  pub execution_id : String
  pub batch_id : String
  pub pipeline_name : String
  pub runtime_params : Fields
  pub created_at : String
  pub batch_number : ℕ
  pub total_batches : ℕ
  pub retry_count : ℕ
  pub is_retry : Bool

-- A dict display.
abbrev pub dict : List (String × Json) → Fields
dict [] = Fields.end
dict ((k, v) ∷ rest) = Fields.field k v (dict rest)

unfoldable pub to_dict : ExecutionContext → Fields
to_dict c = dict (
    ("execution_id", Json.str c.execution_id)
    ∷ ("batch_id", Json.str c.batch_id)
    ∷ ("pipeline_name", Json.str c.pipeline_name)
    ∷ ("runtime_params", Json.obj c.runtime_params)
    ∷ ("created_at", Json.str c.created_at)
    ∷ ("batch_number", Json.num c.batch_number)
    ∷ ("total_batches", Json.num c.total_batches)
    ∷ ("retry_count", Json.num c.retry_count)
    ∷ ("is_retry", Json.bool c.is_retry)
    ∷ [])

-- The parameters of a job whose source has none of its own.
unfoldable pub default_job_params : Bool → Fields → Fields
default_job_params id_based params = if id_based then drop_key "input_ids" params else params

-- `own_params` is the source's `job_params`, if it has any.
unfoldable pub merged_job_params : Fields → Option Fields → Fields
merged_job_params default none = default
merged_job_params default (some Fields.end) = default
merged_job_params default (some (Fields.field k v own)) = merge default (Fields.field k v own)

unfoldable pub job_metadata : ExecutionContext → Fields → Fields
unfolding set merge get to_dict
job_metadata c job_params =
    let context_dict = set "runtime_params" (Json.obj job_params) (to_dict c) in
    let metadata = merge context_dict (dict (("source_metadata", Json.null) ∷ [])) in
    elim (get "current_ids" job_params) [
      | none ↦ metadata
      | some ids ↦ set "current_ids" ids metadata
    ]

abbrev pub job_schema_version : ℕ
job_schema_version = 2

-- `inject` is opentelemetry's, which adds the headers of the current span to a dict.
module _ (inject : Fields → Fields) where
  unfoldable pub build_job_payload :
      (execution_id job_id pipeline_name : String)
      → (source : Json) → (metadata : Fields) → (dedup_check : Bool) → (job_params : Option Fields)
      → Json
  build_job_payload execution_id job_id pipeline_name source metadata dedup_check job_params =
      Json.obj (
        dict (
          ("schema_version", Json.num job_schema_version)
          ∷ ("execution_id", Json.str execution_id)
          ∷ ("job_id", Json.str job_id)
          ∷ ("pipeline_name", Json.str pipeline_name)
          ∷ ("source", source)
          ∷ ("dedup_check", Json.bool dedup_check)
          ∷ ("job_params", Json.obj (elim job_params [ none ↦ Fields.end | some own ↦ own ]))
          ∷ ("metadata", Json.obj (inject metadata))
          ∷ []))

  -- The payload of a planned slice: its own parameters, its descriptor and the id of its job.
  unfoldable pub planned_payload :
      (id_based enable_duplicate_jobs : Bool)
      → ExecutionContext
      → (own : Option Fields) → (source : Json) → (job_id : String) → Json
  unfolding default_job_params merged_job_params job_metadata build_job_payload
  planned_payload id_based enable_duplicate_jobs c own source job_id =
      let job_params = merged_job_params (default_job_params id_based c.runtime_params) own in
      build_job_payload c.execution_id job_id c.pipeline_name source (job_metadata c job_params)
        (not enable_duplicate_jobs) own

-- bulk_set_total_batches at one payload. jsonb_set leaves a payload without metadata alone.
unfoldable pub set_total_batches : ℕ → Json → Json
unfolding get set
set_total_batches n (Json.obj payload) = elim (get "metadata" payload) [
  | some (Json.obj metadata) ↦
      Json.obj (set "metadata" (Json.obj (set "total_batches" (Json.num n) metadata)) payload)
  | _ ↦ Json.obj payload
]
set_total_batches n payload = payload

abbrev pub or_default : Json → Option Json → Json
or_default default none = default
or_default default (some v) = v

-- `d.get(key, default)`
abbrev pub get_or : String → Json → Fields → Json
get_or key default d = or_default default (get key d)

-- `current_ids` is null for None.
unfoldable pub build_flat_runtime_params :
    (base_params : Fields)
    → (execution_id batch_id pipeline_name created_at batch_number total_batches retry_count
        is_retry : Json)
    → (current_ids : Json) → Fields
unfolding set merge
build_flat_runtime_params base id batch name created number total retries is_retry current_ids =
    let runtime_params = merge base (
      dict (
        ("execution_id", id)
        ∷ ("batch_id", batch)
        ∷ ("pipeline_name", name)
        ∷ ("created_at", created)
        ∷ ("batch_number", number)
        ∷ ("total_batches", total)
        ∷ ("retry_count", retries)
        ∷ ("is_retry", is_retry)
        ∷ [])) in
    elim current_ids [ Json.null ↦ runtime_params | ids ↦ set "current_ids" ids runtime_params ]

-- `dict(value or {})`, where the value is an object or tests false; none is an error.
abbrev pub dict_or_empty : Json → Option Fields
dict_or_empty Json.null = some Fields.end
dict_or_empty (Json.bool b) = if b then none else some Fields.end
dict_or_empty (Json.num n) = if n == 0 then some Fields.end else none
dict_or_empty (Json.float m e) = if m == 0 then some Fields.end else none
dict_or_empty (Json.str s) = if s == "" then some Fields.end else none
dict_or_empty (Json.arr Items.nil) = some Fields.end
dict_or_empty (Json.arr (Items.cons x xs)) = none
dict_or_empty (Json.obj d) = some d

unfoldable pub build_flat_runtime_params_from_metadata : Fields → Option Fields
unfolding get build_flat_runtime_params
build_flat_runtime_params_from_metadata metadata =
    elim (dict_or_empty (get_or "runtime_params" (Json.obj Fields.end) metadata)) [
      | none ↦ none
      | some base ↦ some (
          build_flat_runtime_params base (get_or "execution_id" (Json.str "") metadata)
            (get_or "batch_id" (Json.str "") metadata)
            (get_or "pipeline_name" (Json.str "") metadata)
            (get_or "created_at" (Json.str "") metadata)
            (get_or "batch_number" (Json.num 0) metadata)
            (get_or "total_batches" (Json.num 0) metadata)
            (get_or "retry_count" (Json.num 0) metadata)
            (get_or "is_retry" (Json.bool false) metadata)
            (get_or "current_ids" Json.null metadata))
    ]

-- What the worker makes of a payload; none is an error.
unfoldable pub worker_params : Json → Option Fields
unfolding get build_flat_runtime_params_from_metadata
worker_params (Json.obj payload) = elim (get_or "metadata" (Json.obj Fields.end) payload) [
  | Json.obj metadata ↦ build_flat_runtime_params_from_metadata metadata
  | _ ↦ none
]
worker_params payload = none
