-- ===== src/Ids/Batches.antt =====
-- The ids that the jobs of an id-based pipeline are given: `define_jobs` of
-- reflowfy/core/id_based_pipeline.py, and the payloads that carry them to the workers.
use reflowfy.Prelude.{
  ℕ, String, Bool, true, false, Option, none, some, List, [], ◌∷◌, map, ltb, chunks, concat,
  concat-chunks, All-chunks, IsChunk, All, ◌≡◌, ◌≢◌, refl, ap, ◌∙◌, ◌≤◌, arith, ◌⊎◌, string_eq, inl,
  inr, mem, string_eq,
}
use reflowfy.Json.{Json, Fields}
use reflowfy.Json.Dict.{
  get, set, drop_key, items, values, values-items, get-set, get-drop_key, IsDict, set-IsDict,
  drop_key-IsDict,
}
use reflowfy.Params.{ExecutionContext, planned_payload, worker_params}
use reflowfy.Params.RoundTrip.{trace_keys, Receives, job_param, worker_params-planned_payload}
use reflowfy.Ids.{
  Returned, PlannedSource, SourcePlan, Resolved, chunk, enrichments, params_for, resolve_for_ids,
  plan_batches, define_jobs,
}

-- The ids that a worker reads from its parameters.
abbrev pub ids_at : Option Json → List Json
ids_at (some (Json.arr xs)) = values xs
ids_at _ = []

-- What the worker's parameters have under a key; an error has nothing.
unfoldable pub read : String → Option Fields → Option Json
unfolding get
read key none = none
read key (some flat) = get key flat

-- The payload of a planned source carries the ids of its batch, and not the others.
abbrev Carries : List Json → (String → Option Json) → Type 0
Carries batch own = (own "current_ids" ≡ some (Json.arr (items batch))) × (own "input_ids" ≡ none)

received :
    (c : ExecutionContext) (own : String → Option Json) (r : Option Fields) (batch : List Json)
    → Receives c own r
    → Carries batch own
    → (ids_at (read "current_ids" r) ≡ batch) × (read "input_ids" r ≡ none)
unfolding read get
received c own none batch h e = absurd h
received c own (some flat) batch h e =
    (ap ids_at (h "current_ids" ∙ e.0) ∙ values-items batch, h "input_ids" ∙ e.1)

Returned-cases {ℓ} :
    {S : Type ℓ} (r : Returned S)
    → r ≢ Returned.other
    → ((s : S) × (r ≡ Returned.source s)) ⊎ ((rs : List Json) × (r ≡ Returned.records rs))
Returned-cases (Returned.source s) h = inl (s, refl)
Returned-cases (Returned.records rs) h = inr (rs, refl)
Returned-cases Returned.other h = absurd (h refl)

module _ {ℓ} {S : Type ℓ} (static : List Json → S) (define_source : Fields → Returned S × Fields)
    (answers : (p : Fields) → (define_source p).0 ≢ Returned.other)
    (keeps_ids : (p : Fields) → get "current_ids" (define_source p).1 ≡ get "current_ids" p)
    (keeps_dict : (p : Fields) → IsDict p → IsDict (define_source p).1) where
  Good : List Json → Fields → Type 0
  Good batch p = (get "current_ids" p ≡ some (Json.arr (items batch))) × IsDict p

  left-Good :
      (p : Fields) (batch : List Json)
      → IsDict p
      → Good batch (define_source (params_for p batch)).1
  unfolding Good params_for get set
  left-Good p batch d =
      let q = set "current_ids" (Json.arr (items batch)) p in
      (
        keeps_ids (params_for p batch)
            ∙ get-set "current_ids" "current_id" _ q
            ∙ get-set "current_ids" "current_ids" (Json.arr (items batch)) p,
        keeps_dict (params_for p batch)
            (set-IsDict "current_id" _ q (set-IsDict "current_ids" (Json.arr (items batch)) p d)),
      )

  resolves :
      (p : Fields) (batch : List Json)
      → IsDict p
      → (r : Resolved S) × (resolve_for_ids static define_source p batch ≡ some r)
        × Good batch r.batch_params
  unfolding resolve_for_ids
  resolves p batch d =
      let q = params_for p batch in
      let given : S → Resolved S = λ s. record {
        source = s;
        current_ids = batch;
        source_enrichments = enrichments p (define_source q).1;
        batch_params = (define_source q).1;
      } in
      elim (Returned-cases (define_source q).0 (answers q)) [
        | inl e ↦ (given e.0, rw (e.1, resolve_for_ids) refl, left-Good p batch d)
        | inr e ↦ (given (static e.0), rw (e.1, resolve_for_ids) refl, left-Good p batch d)
      ]

  module _ (inject : Fields → Fields)
      (keeps : (d : Fields) (k : String) → mem k trace_keys ≡ false → get k (inject d) ≡ get k d)
      (enable_duplicate_jobs : Bool) (context : PlannedSource S → ExecutionContext)
      (descriptor : S → Json) (job_id : PlannedSource S → String) where
    -- What the worker of a planned source reads.
    abbrev pub worker_read : PlannedSource S → Option Fields
    worker_read s = worker_params (
        planned_payload inject true enable_duplicate_jobs (context s) (some s.job_params)
          (descriptor s.source) (job_id s))

    abbrev pub ids_of : PlannedSource S → List Json
    ids_of s = ids_at (read "current_ids" (worker_read s))

    worker-reads :
        (s : S) (p : Fields) (batch : List Json)
        → Good batch p
        → let planned : PlannedSource S = record {
          source = s;
          job_params = drop_key "input_ids" p;
        } in
          (ids_of planned ≡ batch) × (read "input_ids" (worker_read planned) ≡ none)
    unfolding Good get
    worker-reads s p batch (ids, d) =
        let planned : PlannedSource S = record {
          source = s;
          job_params = drop_key "input_ids" p;
        } in
        let c = context planned in
        let receives =
          worker_params-planned_payload inject keeps true enable_duplicate_jobs c
            (some planned.job_params) (descriptor s) (job_id planned) 0
            (drop_key-IsDict "input_ids" p d) in
        received c (job_param true c (some planned.job_params)) (worker_read planned) batch
          receives.0
          (
            rw (get-drop_key "current_ids" "input_ids" p, ids) refl,
            rw (get-drop_key "input_ids" "input_ids" p) refl,
          )

    Reads : List (List Json) → SourcePlan S → Type 0
    Reads batches plan =
        (plan.raised ≡ false)
        × (map ids_of plan.sources ≡ batches)
        × All (λ s. read "input_ids" (worker_read s) ≡ none) plan.sources

    plan-Reads :
        (p : Fields) (batches : List (List Json))
        → IsDict p
        → Reads batches (plan_batches static define_source p batches)
    unfolding plan_batches Reads
    plan-Reads p [] d = (refl, refl, tt)
    plan-Reads p (batch ∷ batches) d =
        let (r, e, good) = resolves p batch d in
        let (fine, all, clean) = plan-Reads p batches d in
        let now = worker-reads r.source r.batch_params batch good in
        rw (e, plan_batches) (fine, cc (now.0, all), (now.1, clean))

    planned-batches :
        (size : ℕ) (p : Fields) (ids : List Json)
        → 1 ≤ size
        → get "input_ids" p ≡ some (Json.arr (items ids))
        → define_jobs static define_source size p
          ≡ plan_batches static define_source p (chunks size ids)
    unfolding define_jobs chunk
    planned-batches size p ids s e =
        let positive : ltb size 1 ≡ false = ground arith in
        rw (positive, e, define_jobs) (rw (values-items ids) refl)

    -- The lists of ids that the workers read, one list a planned source, joined are input_ids in its
    -- order; each of them has at least one id and at most ids_batch_size ids, and no worker gets the list
    -- of all ids. Planning does not raise. The batch size is at least one; define_source returns a source
    -- or a list and leaves current_ids as it is; a dict has each key once, and the tracing library sets
    -- no other keys than its own.
    pub workers_read_ids :
        (size : ℕ) (p : Fields) (ids : List Json)
        → 1 ≤ size
        → IsDict p
        → get "input_ids" p ≡ some (Json.arr (items ids))
        → let plan = define_jobs static define_source size p in
          (plan.raised ≡ false)
          × (concat (map ids_of plan.sources) ≡ ids)
          × All (IsChunk size) (map ids_of plan.sources)
          × All (λ s. read "input_ids" (worker_read s) ≡ none) plan.sources
    unfolding Reads
    workers_read_ids size p ids s d e =
        let (fine, all, clean) = plan-Reads p (chunks size ids) d in
        rw (planned-batches size p ids s e)
          (fine, rw all (concat-chunks size ids s), rw all (All-chunks size ids s), clean)
