-- ===== src/Params/RoundTrip.antt =====
-- What the worker reads of the parameters that planning writes: the payload of
-- reflowfy/reflow_manager/pipeline_runner.py read by reflowfy/core/execution_context.py.
use reflowfy.Prelude.{
  ℕ, String, Bool, true, false, ◌&&◌, Option, none, some, List, [], ◌∷◌, ◌≡◌, refl, sym, ap, ◌∙◌,
  inl, inr, if◌then◌else◌, ◌==◌, string_eq, eq_of_==, Bool-cases, Option-cases, mem,
}
use mathlib.Core.Path.{subst}
use reflowfy.Json.{Json, Fields}
use reflowfy.Json.Dict.{get, set, merge, or_else, get-set, get-merge, get-drop_key, IsDict}
use reflowfy.Params.{
  ExecutionContext, to_dict, dict, default_job_params, merged_job_params, job_metadata,
  build_job_payload, planned_payload, set_total_batches, build_flat_runtime_params,
  build_flat_runtime_params_from_metadata, worker_params, or_default,
}

-- The keys of the context, which no parameter of a user can shadow.
abbrev pub reserved : ExecutionContext → Fields
reserved c = dict (
    ("execution_id", Json.str c.execution_id)
    ∷ ("batch_id", Json.str c.batch_id)
    ∷ ("pipeline_name", Json.str c.pipeline_name)
    ∷ ("created_at", Json.str c.created_at)
    ∷ ("batch_number", Json.num c.batch_number)
    ∷ ("total_batches", Json.num c.total_batches)
    ∷ ("retry_count", Json.num c.retry_count)
    ∷ ("is_retry", Json.bool c.is_retry)
    ∷ [])

-- The headers of W3C trace context and baggage.
abbrev pub trace_keys : List String
trace_keys = "traceparent" ∷ "tracestate" ∷ "baggage" ∷ []

-- Metadata that says what the worker asks for.
record Carries (c : ExecutionContext) (job_params m : Fields) : Type 0 where
  execution_id : get "execution_id" m ≡ some (Json.str c.execution_id)
  batch_id : get "batch_id" m ≡ some (Json.str c.batch_id)
  pipeline_name : get "pipeline_name" m ≡ some (Json.str c.pipeline_name)
  runtime_params : get "runtime_params" m ≡ some (Json.obj job_params)
  created_at : get "created_at" m ≡ some (Json.str c.created_at)
  batch_number : get "batch_number" m ≡ some (Json.num c.batch_number)
  total_batches : get "total_batches" m ≡ some (Json.num c.total_batches)
  retry_count : get "retry_count" m ≡ some (Json.num c.retry_count)
  is_retry : get "is_retry" m ≡ some (Json.bool c.is_retry)
  current_ids : get "current_ids" m ≡ get "current_ids" job_params

metadata-Carries : (c : ExecutionContext) (p : Fields) → Carries c p (job_metadata c p)
unfolding job_metadata set merge get to_dict
metadata-Carries c p = elim (Option-cases (get "current_ids" p)) [
  | inl e ↦
      rw (e, job_metadata)
        (record {
          execution_id = refl;
          batch_id = refl;
          pipeline_name = refl;
          runtime_params = refl;
          created_at = refl;
          batch_number = refl;
          total_batches = refl;
          retry_count = refl;
          is_retry = refl;
          current_ids = sym e;
        })
  | inr e ↦
      rw (e.1, job_metadata)
        (record {
          execution_id = refl;
          batch_id = refl;
          pipeline_name = refl;
          runtime_params = refl;
          created_at = refl;
          batch_number = refl;
          total_batches = refl;
          retry_count = refl;
          is_retry = refl;
          current_ids = sym e.1;
        })
]

-- The parameters of a job that a worker has, none where it could not read them.
abbrev pub Receives : ExecutionContext → (String → Option Json) → Option Fields → Type 0
Receives c own none = ⊥
Receives c own (some flat) = (k : String) → get k flat ≡ or_else (get k (reserved c)) (own k)

reads_reserved :
    (c : ExecutionContext) (p : Fields) (k : String)
    → get k (merge p (reserved c)) ≡ or_else (get k (reserved c)) (get k p)
unfolding get
reads_reserved c p k =
    get-merge k p (reserved c) (refl, (refl, (refl, (refl, (refl, (refl, (refl, (refl, tt))))))))

reads_ids :
    (c : ExecutionContext) (p : Fields) (v : Json) (k : String)
    → some v ≡ get "current_ids" p
    → get k (set "current_ids" v (merge p (reserved c))) ≡ or_else (get k (reserved c)) (get k p)
unfolding get
reads_ids c p v k h = elim (Bool-cases ("current_ids" == k)) [
  | inl e ↦
      get-set k "current_ids" v (merge p (reserved c))
      ∙ rw e (
          subst (λ i. some v ≡ or_else (get i (reserved c)) (get i p)) (eq_of_== "current_ids" k e)
            h)
  | inr e ↦ get-set k "current_ids" v (merge p (reserved c)) ∙ rw e (reads_reserved c p k)
]

flat-Receives :
    (c : ExecutionContext) (p : Fields) (o : Option Json)
    → o ≡ get "current_ids" p
    → Receives c
        (λ k. get k p)
        (some (
          build_flat_runtime_params p
            (Json.str c.execution_id)
            (Json.str c.batch_id)
            (Json.str c.pipeline_name)
            (Json.str c.created_at)
            (Json.num c.batch_number)
            (Json.num c.total_batches)
            (Json.num c.retry_count)
            (Json.bool c.is_retry)
            (or_default Json.null o)))
unfolding build_flat_runtime_params
flat-Receives c p none h k = reads_reserved c p k
flat-Receives c p (some Json.null) h k = reads_reserved c p k
flat-Receives c p (some (Json.bool b)) h k = reads_ids c p (Json.bool b) k h
flat-Receives c p (some (Json.num n)) h k = reads_ids c p (Json.num n) k h
flat-Receives c p (some (Json.float m e)) h k = reads_ids c p (Json.float m e) k h
flat-Receives c p (some (Json.str s)) h k = reads_ids c p (Json.str s) k h
flat-Receives c p (some (Json.arr xs)) h k = reads_ids c p (Json.arr xs) k h
flat-Receives c p (some (Json.obj d)) h k = reads_ids c p (Json.obj d) k h

metadata-Receives :
    (c : ExecutionContext) (p m : Fields)
    → Carries c p m
    → Receives c (λ k. get k p) (build_flat_runtime_params_from_metadata m)
unfolding build_flat_runtime_params_from_metadata
metadata-Receives c p m h =
    rw (h.runtime_params, build_flat_runtime_params_from_metadata)
      (rw
        (
          h.execution_id, h.batch_id, h.pipeline_name, h.created_at, h.batch_number,
          h.total_batches, h.retry_count, h.is_retry,
        )
        (flat-Receives c p (get "current_ids" m) h.current_ids))

total-Carries :
    (n : ℕ) (c : ExecutionContext) (p m : Fields)
    → Carries c p m
    → Carries (record c { total_batches = n }) p (set "total_batches" (Json.num n) m)
total-Carries n c p m h =
    let at = λ (k : String). get-set k "total_batches" (Json.num n) m in
    record {
      execution_id = at "execution_id" ∙ h.execution_id;
      batch_id = at "batch_id" ∙ h.batch_id;
      pipeline_name = at "pipeline_name" ∙ h.pipeline_name;
      runtime_params = at "runtime_params" ∙ h.runtime_params;
      created_at = at "created_at" ∙ h.created_at;
      batch_number = at "batch_number" ∙ h.batch_number;
      total_batches = at "total_batches";
      retry_count = at "retry_count" ∙ h.retry_count;
      is_retry = at "is_retry" ∙ h.is_retry;
      current_ids = at "current_ids" ∙ h.current_ids;
    }

-- The job's own parameters; then the execution's, without the list of all ids for an id-based one.
abbrev pub job_param : Bool → ExecutionContext → Option Fields → String → Option Json
job_param id_based c own k =
    or_else (elim own [ none ↦ none | some d ↦ get k d ])
      (if id_based && "input_ids" == k then none else get k c.runtime_params)

default-get :
    (id_based : Bool) (p : Fields) (k : String)
    → get k (default_job_params id_based p)
      ≡ (if id_based && "input_ids" == k then none else get k p)
unfolding default_job_params
default-get true p k = get-drop_key k "input_ids" p
default-get false p k = refl

abbrev pub OwnIsDict : Option Fields → Type 0
OwnIsDict none = Unit
OwnIsDict (some d) = IsDict d

merged-get :
    (id_based : Bool) (c : ExecutionContext) (own : Option Fields) (k : String)
    → OwnIsDict own
    → get k (merged_job_params (default_job_params id_based c.runtime_params) own)
      ≡ job_param id_based c own k
unfolding merged_job_params get
merged-get id_based c none k h = default-get id_based c.runtime_params k
merged-get id_based c (some Fields.end) k h = default-get id_based c.runtime_params k
merged-get id_based c (some (Fields.field n v d)) k h =
    get-merge k (default_job_params id_based c.runtime_params) (Fields.field n v d) h
    ∙ ap (or_else (get k (Fields.field n v d))) (default-get id_based c.runtime_params k)

Receives-ext :
    (c : ExecutionContext) (f g : String → Option Json) (r : Option Fields)
    → ((k : String) → f k ≡ g k)
    → Receives c f r
    → Receives c g r
Receives-ext c f g none e h = h
Receives-ext c f g (some d) e h = λ k. h k ∙ ap (or_else (get k (reserved c))) (e k)

module _ (inject : Fields → Fields)
    (keeps : (d : Fields) (k : String)
      → mem k trace_keys ≡ false
      → get k (inject d) ≡ get k d) where
  inject-Carries : (c : ExecutionContext) (p m : Fields) → Carries c p m → Carries c p (inject m)
  inject-Carries c p m h = record {
    execution_id = keeps m "execution_id" refl ∙ h.execution_id;
    batch_id = keeps m "batch_id" refl ∙ h.batch_id;
    pipeline_name = keeps m "pipeline_name" refl ∙ h.pipeline_name;
    runtime_params = keeps m "runtime_params" refl ∙ h.runtime_params;
    created_at = keeps m "created_at" refl ∙ h.created_at;
    batch_number = keeps m "batch_number" refl ∙ h.batch_number;
    total_batches = keeps m "total_batches" refl ∙ h.total_batches;
    retry_count = keeps m "retry_count" refl ∙ h.retry_count;
    is_retry = keeps m "is_retry" refl ∙ h.is_retry;
    current_ids = keeps m "current_ids" refl ∙ h.current_ids;
  }

  -- What the worker reads from the payload of a planned job: the keys of the execution's context as
  -- planning has set them, whatever the user's parameters are called; and under any other key what the
  -- job's own parameters say, or else the execution's, without input_ids for an id-based pipeline. Once
  -- the number of batches is filled in, the worker reads it as well, and all else as before. A dict has
  -- each key once, and the tracing library sets no other keys than its own.
  pub worker_params-planned_payload :
      (id_based enable_duplicate_jobs : Bool) (c : ExecutionContext) (own : Option Fields)
      (source : Json) (job_id : String) (n : ℕ)
      → OwnIsDict own
      → let payload = planned_payload inject id_based enable_duplicate_jobs c own source job_id in
        Receives c (job_param id_based c own) (worker_params payload)
        × Receives
            (record c { total_batches = n })
            (job_param id_based c own)
            (worker_params (set_total_batches n payload))
  unfolding worker_params set_total_batches planned_payload build_job_payload get set
  worker_params-planned_payload id_based dup c own source job_id n h =
      let p = merged_job_params (default_job_params id_based c.runtime_params) own in
      let m = inject (job_metadata c p) in
      let carries = inject-Carries c p (job_metadata c p) (metadata-Carries c p) in
      let own_reads = λ (k : String). merged-get id_based c own k h in
      (
        Receives-ext c (λ k. get k p) (job_param id_based c own)
            (build_flat_runtime_params_from_metadata m) own_reads (metadata-Receives c p m carries),
        Receives-ext (record c { total_batches = n }) (λ k. get k p) (job_param id_based c own)
            (build_flat_runtime_params_from_metadata (set "total_batches" (Json.num n) m)) own_reads
            (metadata-Receives (record c { total_batches = n }) p
              (set "total_batches" (Json.num n) m) (total-Carries n c p m carries)),
      )
