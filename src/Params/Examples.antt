-- ===== src/Params/Examples.antt =====
-- A job whose own parameters and whose user's parameters use the keys of the context.
use reflowfy.Prelude.{String, false, true, some, [], ◌∷◌, ◌≡◌, refl, arith, mem, string_eq}
use reflowfy.Json.{Json, Fields}
use reflowfy.Json.Dict.{get, set, merge, drop_key, get-set}
use reflowfy.Params.{
  ExecutionContext, dict, to_dict, planned_payload, set_total_batches, worker_params,
}
use reflowfy.Params.RoundTrip.{trace_keys, Receives, job_param, worker_params-planned_payload}

-- The header of a span.
unfoldable pub traced : Fields → Fields
traced = set "traceparent" (Json.str "00-1-2-01")

pub traced_keeps : (d : Fields) (k : String) → mem k trace_keys ≡ false → get k (traced d) ≡ get k d
unfolding traced
traced_keeps d k h = ground (arith, get-set k "traceparent" (Json.str "00-1-2-01") d)

abbrev pub context : ExecutionContext
context = record {
  execution_id = "e";
  batch_id = "b";
  pipeline_name = "p";
  runtime_params =
      dict (("batch_id", Json.str "mine") ∷ ("input_ids", Json.null) ∷ ("day", Json.num 1) ∷ []);
  created_at = "2026-01-01";
  batch_number = 3;
  total_batches = 0;
  retry_count = 0;
  is_retry = false;
}

abbrev own : Fields
own = dict (("day", Json.num 2) ∷ ("retry_count", Json.num 9) ∷ [])

payload : Json
payload = planned_payload traced true false context (some own) Json.null "j"

read_back :
    worker_params payload
    ≡ some (
        dict (
          ("batch_id", Json.str "b")
          ∷ ("day", Json.num 2)
          ∷ ("retry_count", Json.num 0)
          ∷ ("execution_id", Json.str "e")
          ∷ ("pipeline_name", Json.str "p")
          ∷ ("created_at", Json.str "2026-01-01")
          ∷ ("batch_number", Json.num 3)
          ∷ ("total_batches", Json.num 0)
          ∷ ("is_retry", Json.bool false)
          ∷ []))
unfolding payload worker_params planned_payload traced get set merge drop_key to_dict
read_back = refl

worker_params-planned_payload_example :
    Receives context (job_param true context (some own)) (worker_params payload)
    × Receives
        (record context { total_batches = 4 })
        (job_param true context (some own))
        (worker_params (set_total_batches 4 payload))
unfolding payload get
worker_params-planned_payload_example =
    worker_params-planned_payload traced traced_keeps true false context (some own) Json.null "j" 4
      (refl, (refl, tt))
