-- ===== src/Dedup/Exclusive.antt =====
-- Jobs that claim and release record hashes at once: the statements of claim_record_hashes and
-- release_record_hashes of reflowfy/execution/content_dedup.py in any order.
use reflowfy.Prelude.{
  ℕ, String, Bool, true, false, ◌&&◌, Option, none, some, List, [], ◌∷◌, ◌==◌, string_eq, ◌≡◌, ◌≢◌,
  refl, sym, ap, ◌∙◌, Bool-cases, mem, mem-append, concat, Option-cases, All, ◌||◌, ◌⊎◌, inl, inr,
  arith, eq_of_==,
}
use reflowfy.Prelude.Sql.{delete}
use reflowfy.Prelude.Keyed.{find, IsKeyed}
use reflowfy.Prelude.KeyedRows.{delete-IsKeyed, find-delete, key-find}
use reflowfy.Dedup.{
  Table, key, insert_records, is_own, claim_record_hashes, release_parts, release_record_hashes,
}
use reflowfy.Dedup.Inserts.{owner, is_held_by, released, insert-owner, insert-IsKeyed}
use reflowfy.Dedup.Owners.{asked, claim-Claims}

released_no : (job : String) (o : Option String) → released job false o ≡ o
released_no job o = refl

released_twice :
    (job : String) (x y : Bool) (o : Option String)
    → released job y (released job x o) ≡ released job (x || y) o
released_twice job x y none = ground arith
released_twice job x y (some other) = ground arith

delete-owner :
    (job : String) (part : List String) (t : Table) (a : String)
    → IsKeyed key t
    → owner a (delete (is_own job part) t) ≡ released job (mem a part) (owner a t)
unfolding owner
delete-owner job part t a k =
    rw (find-delete key (is_own job part) a t k) (elim (Option-cases (find key a t)) [
      | inl e ↦ rw e (ground arith)
      | inr s ↦ rw (s.1) (
          rw (key-find key a t s.0 s.1) (elim (Bool-cases (mem a part && s.0.job_id == job)) [
            | inl h ↦ rw h refl
            | inr h ↦ rw h refl
          ]))
    ])

parts-released :
    (job : String) (parts : List (List String)) (t : Table) (a : String)
    → IsKeyed key t
    → owner a (release_parts job parts t) ≡ released job (mem a (concat parts)) (owner a t)
unfolding release_parts
parts-released job [] t a k = refl
parts-released job (part ∷ parts) t a k =
    parts-released job parts _ a (delete-IsKeyed key (is_own job part) t k)
    ∙ rw (delete-owner job part t a k, released_twice, mem-append a part (concat parts)) refl

parts-IsKeyed :
    (job : String) (parts : List (List String)) (t : Table)
    → IsKeyed key t
    → IsKeyed key (release_parts job parts t)
unfolding release_parts
parts-IsKeyed job [] t k = k
parts-IsKeyed job (part ∷ parts) t k =
    parts-IsKeyed job parts _ (delete-IsKeyed key (is_own job part) t k)

pub release-IsKeyed :
    (job : String) (hashes : List String) (t : Table)
    → IsKeyed key t
    → IsKeyed key (release_record_hashes job hashes t)
unfolding release_record_hashes
release-IsKeyed job hashes t k = parts-IsKeyed job _ t k

-- In a table with one row a hash, a release frees those of its hashes that the job itself holds, and changes no other owner.
pub release-owner :
    (job : String) (hashes : List String) (t : Table) (a : String)
    → IsKeyed key t
    → owner a (release_record_hashes job hashes t) ≡ released job (mem a hashes) (owner a t)
unfolding release_record_hashes
release-owner job hashes t a k = rw (sym (asked a hashes)) (parts-released job _ t a k)

-- A statement of a claim or of a release, by any job. A rollback of a claim takes back what the
-- claim inserted, as a release of its own does.
pub data Act : Type 0 where
  insert : ℕ → String → List String → Act
  drop : String → List String → Act

unfoldable pub act : Act → Table → Table
act (Act.insert now job part) t = (insert_records now job part t).1
act (Act.drop job part) t = delete (is_own job part) t

unfoldable pub acts : List Act → Table → Table
unfolding act
acts [] t = t
acts (a ∷ rest) t = acts rest (act a t)

-- The statement does not give up the job's hash.
abbrev pub Keeps : String → String → Act → Type 0
Keeps job h (Act.insert now other part) = Unit
Keeps job h (Act.drop other part) = (other ≢ job) ⊎ (mem h part ≡ false)

act-IsKeyed : (a : Act) (t : Table) → IsKeyed key t → IsKeyed key (act a t)
unfolding act
act-IsKeyed (Act.insert now job part) t k = insert-IsKeyed now job part t k
act-IsKeyed (Act.drop job part) t k = delete-IsKeyed key (is_own job part) t k

acts-IsKeyed : (run : List Act) (t : Table) → IsKeyed key t → IsKeyed key (acts run t)
unfolding acts
acts-IsKeyed [] t k = k
acts-IsKeyed (a ∷ run) t k = acts-IsKeyed run (act a t) (act-IsKeyed a t k)

act-Keeps :
    (job h : String) (a : Act) (t : Table)
    → IsKeyed key t
    → Keeps job h a
    → owner h t ≡ some job
    → owner h (act a t) ≡ some job
unfolding act
act-Keeps job h (Act.insert now other part) t k keeps o =
    insert-owner now other part t h ∙ rw o refl
act-Keeps job h (Act.drop other part) t k keeps o =
    delete-owner other part t h k
    ∙ rw o (elim keeps [
      | inl ne ↦ elim (Bool-cases (job == other)) [
        | inl e ↦ absurd (ne (sym (eq_of_== job other e)))
        | inr e ↦ rw e (ground arith)
      ]
      | inr apart ↦ rw apart refl
    ])

acts-Keeps :
    (job h : String) (run : List Act) (t : Table)
    → IsKeyed key t
    → All (Keeps job h) run
    → owner h t ≡ some job
    → owner h (acts run t) ≡ some job
unfolding acts
acts-Keeps job h [] t k keeps o = o
acts-Keeps job h (a ∷ run) t k keeps o =
    acts-Keeps job h run (act a t) (act-IsKeyed a t k) keeps.1 (act-Keeps job h a t k keeps.0 o)

won_owner :
    (job : String) (asks : Bool) (o : Option String)
    → (asks && is_held_by job o) ≡ true
    → o ≡ some job
won_owner job asks none h = ground (arith, h)
won_owner job asks (some other) h = ap some (eq_of_== other job (ground (arith, h)))

-- While a job does not release a hash that it has won, whatever claims and releases of other jobs
-- and of its own run in between, statement by statement, no other job wins it, and the job itself
-- wins it again if it is run again. The table has one row a hash and is not purged in that time.
pub records_exclusive :
    (now later : ℕ) (job other h : String) (hashes more : List String) (between : List Act)
    (t : Table)
    → IsKeyed key t
    → mem h (claim_record_hashes now job hashes t).0 ≡ true
    → All (Keeps job h) between
    → mem h
        (claim_record_hashes later other more
          (acts between (claim_record_hashes now job hashes t).1)).0
      ≡ (mem h more && job == other)
records_exclusive now later job other h hashes more between t k w keeps =
    let (won, u) = claim_record_hashes now job hashes t in
    let first = claim-Claims now job hashes t k in
    let v = acts between u in
    let second = claim-Claims later other more v (acts-IsKeyed between u first.keyed) in
    let held : owner h v ≡ some job =
      acts-Keeps job h between u first.keyed keeps
        (won_owner job (mem h hashes) (owner h u) (sym (first.won h) ∙ w)) in
    second.won h ∙ rw (second.owners h, held) refl
