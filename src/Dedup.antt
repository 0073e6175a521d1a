-- ===== src/Dedup.antt =====
-- Content deduplication: reflowfy/execution/content_dedup.py over the table of class ProcessedRecord
-- (reflowfy/reflow_manager/models.py), `_claim_records` of reflowfy/worker/executor.py, and the purge
-- of reflowfy/reflow_manager/content_dedup_scheduler.py. A hash is a text; SHA-256 and json.dumps
-- are a parameter, `digest`.
pub mod Inserts
pub mod Owners
pub mod Exclusive
pub mod Kept
pub mod Secrets
pub mod Purge
mod Examples
use reflowfy.Prelude.{
  ℕ, ◌+◌, String, Bool, true, false, not, ◌&&◌, ◌||◌, Option, none, some, List, [], ◌∷◌, ◌++◌, map,
  if◌then◌else◌, ◌==◌, string_eq, zero, suc, take, ltb, chunks, mem, unique, length,
}
use reflowfy.Prelude.Sql.{select, delete, count, any}
use reflowfy.Prelude.Keyed.{find}
use reflowfy.Json.{Json, Items, Fields}

pub record ProcessedRecord : Type 0 where
  pub record_hash : String
  pub job_id : String
  pub created_at : ℕ

abbrev pub Table : Type 0
Table = List ProcessedRecord

abbrev pub key : ProcessedRecord → String
key r = r.record_hash

abbrev pub new_record : ℕ → String → String → ProcessedRecord
new_record now job h = record { record_hash = h; job_id = job; created_at = now }

-- INSERT … ON CONFLICT DO NOTHING RETURNING record_hash, a row at a time.
unfoldable pub insert_records : ℕ → String → List String → Table → List String × Table
insert_records now job [] t = ([], t)
insert_records now job (h ∷ hs) t = elim (find key h t) [
  | none ↦
      let (inserted, u) = insert_records now job hs (t ++ new_record now job h ∷ []) in
      (h ∷ inserted, u)
  | some r ↦ insert_records now job hs t
]

abbrev pub is_own : String → List String → ProcessedRecord → Bool
is_own job hs r = mem r.record_hash hs && r.job_id == job

-- The hashes won by one statement and the SELECT of the job's own among the taken.
unfoldable pub claim_part : ℕ → String → List String → Table → List String × Table
claim_part now job part t =
    let (inserted, u) = insert_records now job part t in
    let taken = delete (λ h. mem h inserted) part in
    (inserted ++ map key (select (is_own job taken) u), u)

unfoldable pub claim_parts : ℕ → String → List (List String) → Table → List String × Table
claim_parts now job [] t = ([], t)
claim_parts now job (part ∷ parts) t =
    let (won, u) = claim_part now job part t in
    let (rest, v) = claim_parts now job parts u in (won ++ rest, v)

-- CLAIM_CHUNK_SIZE
abbrev pub claim_chunk_size : ℕ
claim_chunk_size = 1000

unfoldable pub claim_record_hashes : ℕ → String → List String → Table → List String × Table
claim_record_hashes now job hashes t =
    claim_parts now job (chunks claim_chunk_size (unique hashes)) t

unfoldable pub release_parts : String → List (List String) → Table → Table
release_parts job [] t = t
release_parts job (part ∷ parts) t = release_parts job parts (delete (is_own job part) t)

unfoldable pub release_record_hashes : String → List String → Table → Table
release_record_hashes job hashes t = release_parts job (chunks claim_chunk_size (unique hashes)) t

-- A row of class ProcessedContent, the ledger of earlier releases.
pub record ProcessedContent : Type 0 where
  pub content_hash : String
  pub job_id : String
  pub created_at : ℕ

-- A hash that is None or empty is no hash.
unfoldable pub held_by_other_job : List String → String → List ProcessedContent → Bool
held_by_other_job job_hashes job t =
    let hashes = unique (delete (λ h. h == "") job_hashes) in
    any (λ r. not (r.job_id == job)) (select (λ r. mem r.content_hash hashes) t)

-- The records to send: of each hash won, the first record that has it.
unfoldable pub kept_records {ℓ} :
    {A : Type ℓ} → (A → String) → List String → List String → List A → List A
kept_records hash_of won seen [] = []
kept_records hash_of won seen (r ∷ rs) =
    let new = r ∷ kept_records hash_of won (hash_of r ∷ seen) rs in
    let old = kept_records hash_of won seen rs in
    if mem (hash_of r) won && not (mem (hash_of r) seen) then new else old

-- The upgrade guard: `none` where DEDUP_HONOR_LEGACY_HASH is off.
unfoldable pub held_before : Option (List String × List ProcessedContent) → String → Bool
unfolding held_by_other_job
held_before none job = false
held_before (some (job_hashes, t)) job = held_by_other_job job_hashes job t

-- `hash_of` is compute_record_hash of the record's identity, `legacy` the job's hashes under the
-- rules of earlier releases and their ledger.
unfoldable pub claim_records {ℓ} :
    {A : Type ℓ}
    → (A → String)
    → Option (List String × List ProcessedContent)
    → ℕ
    → String
    → List A
    → Table
    → (List A × List String) × Table
claim_records hash_of legacy now job records t =
    let (won, u) = claim_record_hashes now job (map hash_of records) t in
    if held_before legacy job
    then (([], []), t)
    else ((kept_records hash_of won [] records, won), u)

-- `{k: v for k, v in fields.items() if not drop(k)}`
unfoldable pub without : (String → Bool) → Fields → Fields
without drop Fields.end = Fields.end
without drop (Fields.field k v fs) =
    let rest = without drop fs in if drop k then rest else Fields.field k v rest

-- _SLICE_PARAMS
abbrev pub slice_params : List String
slice_params = "current_id" ∷ "current_ids" ∷ "input_ids" ∷ []

-- An empty dict is falsy, and so is None.
abbrev pub with_fields : String → Fields → Fields → Fields
with_fields name Fields.end rest = rest
with_fields name fs rest = Fields.field name (Json.obj fs) rest

-- The dict that is hashed; `digest` sorts its keys.
unfoldable pub compute_record_hash : (Json → String) → String → Json → Fields → Fields → String
compute_record_hash digest pipeline_name identity destination job_params = digest (
    Json.obj (
      Fields.field "pipeline_name" (Json.str pipeline_name) (
        Fields.field "record" identity (
          with_fields "destination" destination
            (with_fields "job_params" (without (λ k. mem k slice_params) job_params) Fields.end)))))

-- _strip_secrets; `is_secret` is its argument, _is_secret_key by default.
unfoldable mutual
  pub strip_secrets : (String → Bool) → Json → Json
  strip_secrets is_secret (Json.obj fs) = Json.obj (strip_fields is_secret fs)
  strip_secrets is_secret (Json.arr vs) = Json.arr (strip_items is_secret vs)
  strip_secrets is_secret v = v

  pub strip_items : (String → Bool) → Items → Items
  strip_items is_secret Items.nil = Items.nil
  strip_items is_secret (Items.cons v vs) =
      Items.cons (strip_secrets is_secret v) (strip_items is_secret vs)

  pub strip_fields : (String → Bool) → Fields → Fields
  strip_fields is_secret Fields.end = Fields.end
  strip_fields is_secret (Fields.field k v fs) =
      let rest = strip_fields is_secret fs in
      let v' = strip_secrets is_secret v in if is_secret k then rest else Fields.field k v' rest

-- _identity: the class of the destination, and its `dedup_identity` or else its config, which
-- counts where it is a dict.
abbrev pub config_of : (String → Bool) → Json → Json
config_of is_secret (Json.obj fs) = strip_secrets is_secret (Json.obj fs)
config_of is_secret v = Json.obj Fields.end

unfoldable pub identity : (String → Bool) → String → Option Json → Json → Fields
identity is_secret type_name none config =
    Fields.field "type" (Json.str type_name)
      (Fields.field "config" (config_of is_secret config) Fields.end)
identity is_secret type_name (some explicit) config =
    Fields.field "type" (Json.str type_name)
      (Fields.field "identity" (strip_secrets is_secret explicit) Fields.end)

-- The rounds of _purge_in_chunks on one table; `none` is out of fuel, the model's own. A round
-- deletes `chunk` of the expired rows; the first ones, as the query has no order.
unfoldable pub delete_first {ℓ} : {A : Type ℓ} → (A → Bool) → ℕ → List A → List A
delete_first p zero t = t
delete_first p (suc n) [] = []
delete_first p (suc n) (x ∷ t) =
    let hit = delete_first p n t in
    let miss = x ∷ delete_first p (suc n) t in if p x then hit else miss

unfoldable pub purge_in_chunks {ℓ} :
    {A : Type ℓ} → ℕ → (A → Bool) → ℕ → List A → Option (ℕ × List A)
purge_in_chunks zero p chunk t = none
purge_in_chunks (suc fuel) p chunk t =
    let deleted = length (take chunk (select p t)) in
    let u = delete_first p chunk t in
    let again = purge_in_chunks fuel p chunk u in
    if ltb deleted chunk
    then some (deleted, u)
    else elim again [ none ↦ none | some r ↦ some (deleted + r.0, r.1) ]
