-- ===== src/Dedup/Inserts.antt =====
-- The owner of a hash, and the statements of claim_record_hashes (reflowfy/execution/content_dedup.py)
-- as operations on the map from hashes to jobs.
use reflowfy.Prelude.{
  ℕ, String, Bool, true, false, ◌&&◌, ◌||◌, Option, none, some, List, [], ◌∷◌, ◌++◌, map,
  if◌then◌else◌, ◌==◌, string_eq, ◌≡◌, refl, sym, ap, ◌∙◌, Bool-cases, Option-cases, mem, inl, inr,
  arith, eq_of_==, ne_of_==,
}
use mathlib.Core.Option
use reflowfy.Prelude.Sql.{select}
use reflowfy.Prelude.Keyed.{find, find-append_ne, find-append_new, find_absent, IsKeyed}
use reflowfy.Prelude.KeyedRows.{append-IsKeyed}
use reflowfy.Dedup.{ProcessedRecord, Table, key, new_record, insert_records, is_own}

-- The job that holds a hash.
unfoldable pub owner : String → Table → Option String
owner h t = Option.map (λ r. r.job_id) (find key h t)

-- A hash that is asked for goes to the job if it is free.
abbrev pub claimed : String → Bool → Option String → Option String
claimed job asked none = if asked then some job else none
claimed job asked (some other) = some other

abbrev pub is_held_by : String → Option String → Bool
is_held_by job none = false
is_held_by job (some other) = other == job

-- A job's own hash that it gives up is free.
abbrev pub released : String → Bool → Option String → Option String
released job asked o = if asked && is_held_by job o then none else o

pub claimed_no : (job : String) (o : Option String) → claimed job false o ≡ o
claimed_no job none = refl
claimed_no job (some other) = refl

pub claimed_twice :
    (job : String) (x y : Bool) (o : Option String)
    → claimed job y (claimed job x o) ≡ claimed job (x || y) o
claimed_twice job true y none = refl
claimed_twice job false y none = refl
claimed_twice job x y (some other) = refl

pub owner_taken :
    (h : String) (t : Table) (r : ProcessedRecord)
    → find key h t ≡ some r
    → owner h t ≡ some (r.job_id)
unfolding owner
owner_taken h t r e = rw e refl

pub owner_append :
    (now : ℕ) (job a h : String) (t : Table)
    → find key h t ≡ none
    → owner a (t ++ new_record now job h ∷ []) ≡ claimed job (h == a) (owner a t)
unfolding owner
owner_append now job a h t free = elim (Bool-cases (h == a)) [
  | inl e ↦ rw (e, sym (eq_of_== h a e), find-append_new key t (new_record now job h) free, free)
  | inr e ↦
      rw (e, find-append_ne key a t (new_record now job h) (λ p. ne_of_== e (sym p)))
        (sym (claimed_no job (owner a t)))
]

pub insert-owner :
    (now : ℕ) (job : String) (hs : List String) (t : Table) (a : String)
    → owner a (insert_records now job hs t).1 ≡ claimed job (mem a hs) (owner a t)
unfolding insert_records
insert-owner now job [] t a = sym (claimed_no job (owner a t))
insert-owner now job (h ∷ hs) t a = elim (Option-cases (find key h t)) [
  | inl free ↦
      rw (free, insert_records)
        (insert-owner now job hs (t ++ new_record now job h ∷ []) a
          ∙ ap (claimed job (mem a hs)) (owner_append now job a h t free)
          ∙ claimed_twice job (h == a) (mem a hs) (owner a t))
  | inr taken ↦
      rw (taken.1, insert_records)
        (insert-owner now job hs t a ∙ elim (Bool-cases (h == a)) [
          | inl e ↦ rw (e, sym (eq_of_== h a e), owner_taken h t taken.0 taken.1)
          | inr e ↦ rw e refl
        ])
]

abbrev pub is_free : Option String → Bool
is_free none = true
is_free (some other) = false

pub owner_free : (h : String) (t : Table) → find key h t ≡ none → owner h t ≡ none
unfolding owner
owner_free h t e = rw e refl

pub insert-mem :
    (now : ℕ) (job : String) (hs : List String) (t : Table) (a : String)
    → mem a (insert_records now job hs t).0 ≡ (mem a hs && is_free (owner a t))
unfolding insert_records
insert-mem now job [] t a = refl
insert-mem now job (h ∷ hs) t a = elim (Option-cases (find key h t)) [
  | inl free ↦
      rw (free, insert_records)
        (elim (Bool-cases (h == a)) [
          | inl e ↦ rw (e, sym (eq_of_== h a e), owner_free h t free) refl
          | inr e ↦
              rw
                (
                  e,
                  insert-mem now job hs (t ++ new_record now job h ∷ []) a,
                  owner_append now job a h t free,
                  e,
                  claimed_no,
                )
                refl
        ])
  | inr taken ↦
      rw (taken.1, insert_records)
        (elim (Bool-cases (h == a)) [
          | inl e ↦
              rw
                (
                  e,
                  insert-mem now job hs t a,
                  sym (eq_of_== h a e),
                  owner_taken h t taken.0 taken.1,
                )
                (ground arith)
          | inr e ↦ rw (e) (insert-mem now job hs t a)
        ])
]

pub insert-IsKeyed :
    (now : ℕ) (job : String) (hs : List String) (t : Table)
    → IsKeyed key t
    → IsKeyed key (insert_records now job hs t).1
unfolding insert_records
insert-IsKeyed now job [] t k = k
insert-IsKeyed now job (h ∷ hs) t k = elim (Option-cases (find key h t)) [
  | inl free ↦
      rw (free, insert_records)
        (insert-IsKeyed now job hs _ (append-IsKeyed key t (new_record now job h) free k))
  | inr taken ↦ rw (taken.1, insert_records) (insert-IsKeyed now job hs t k)
]

-- The SELECT of a job's own rows among some hashes.
pub own-mem :
    (job : String) (hs : List String) (a : String) (t : Table)
    → IsKeyed key t
    → mem a (map key (select (is_own job hs) t)) ≡ (mem a hs && is_held_by job (owner a t))
unfolding select find owner
own-mem job hs a [] k = ground arith
own-mem job hs a (r ∷ t) k = elim (Bool-cases (r.record_hash == a)) [
  | inl e ↦ elim (Bool-cases (is_own job hs r)) [
    | inl h ↦ rw (h, e) (sym (rw (eq_of_== r.record_hash a e) at h))
    | inr h ↦
        let gone : find key a t ≡ none =
          find_absent key a t (rw (eq_of_== r.record_hash a e) at k.0) in
        rw (h, e, own-mem job hs a t k.1, gone)
          (ground (arith, rw (eq_of_== r.record_hash a e) at h))
  ]
  | inr e ↦ elim (Bool-cases (is_own job hs r)) [
    | inl h ↦ rw (h, e) (own-mem job hs a t k.1)
    | inr h ↦ rw (h, e) (own-mem job hs a t k.1)
  ]
]
