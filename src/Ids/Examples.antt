-- ===== src/Ids/Examples.antt =====
-- Three ids in batches of two.
use reflowfy.Prelude.{
  String, false, true, none, some, List, [], ◌∷◌, ◌≡◌, ◌≢◌, refl, arith, map, concat, All, IsChunk,
  chunks,
}
use reflowfy.Json.{Json, Fields}
use reflowfy.Json.Dict.{get, set, drop_key, items}
use reflowfy.Params.{dict, worker_params, planned_payload}
use reflowfy.Params.Examples.{traced, traced_keeps, context}
use reflowfy.Ids.{Returned, SourcePlan, define_jobs}
use reflowfy.Ids.Batches.{read, ids_of, workers_read_ids}

abbrev fixed : Fields → Returned String × Fields
fixed p = (Returned.source "orders", p)

abbrev static : List Json → String
static rs = "records"

abbrev ids : List Json
ids = Json.num 7 ∷ Json.num 8 ∷ Json.num 9 ∷ []

abbrev params : Fields
params = dict (("input_ids", Json.arr (items ids)) ∷ [])

answers : (p : Fields) → (fixed p).0 ≢ Returned.other
answers p h = cc h

abbrev plan : SourcePlan String
plan = define_jobs static fixed 2 params

planned :
    map (λ s. s.job_params) plan.sources
    ≡ dict (
        ("current_ids", Json.arr (items (Json.num 7 ∷ Json.num 8 ∷ [])))
        ∷ ("current_id", Json.num 7)
        ∷ [])
      ∷ dict (("current_ids", Json.arr (items (Json.num 9 ∷ []))) ∷ ("current_id", Json.num 9) ∷ [])
      ∷ []
unfolding define_jobs get set drop_key chunks
planned = refl

abbrev ids_of_all : List (List Json)
ids_of_all =
    map
      (ids_of static fixed answers (λ p. refl) (λ p d. d) traced traced_keeps false (λ s. context)
        Json.str (λ s. "j"))
      plan.sources

workers_read_ids_example :
    (plan.raised ≡ false)
    × (concat ids_of_all ≡ ids)
    × All (IsChunk 2) ids_of_all
    × All
        (λ s.
          read "input_ids" (
            worker_params (
              planned_payload traced true false context
                (some s.job_params)
                (Json.str s.source)
                "j"))
          ≡ none)
        plan.sources
unfolding get
workers_read_ids_example =
    workers_read_ids static fixed answers (λ p. refl) (λ p d. d) traced traced_keeps false
      (λ s. context) Json.str (λ s. "j") 2 params ids (omega arith) (refl, tt) refl
