-- ===== src/Dedup/Owners.antt =====
-- Who owns a hash: claim_record_hashes and release_record_hashes of
-- reflowfy/execution/content_dedup.py as operations on a map from hashes to jobs.
use reflowfy.Prelude.{
  ℕ, String, Bool, not, ◌&&◌, ◌||◌, Option, none, some, List, [], ◌∷◌, map, string_eq, ◌≡◌, refl,
  sym, ◌∙◌, mem, unique, mem-append, mem-unique, concat, chunks, concat-chunks, arith, ==_refl,
  mem-delete,
}
use reflowfy.Prelude.Sql.{select, delete}
use reflowfy.Prelude.Keyed.{IsKeyed}
use reflowfy.Dedup.Inserts.{
  owner, claimed, is_held_by, is_free, claimed_no, claimed_twice, insert-owner, insert-mem,
  insert-IsKeyed, own-mem,
}
use reflowfy.Dedup.{
  Table, key, insert_records, is_own, claim_part, claim_parts, claim_record_hashes,
  claim_chunk_size,
}

won_cases :
    (job : String) (p : Bool) (o : Option String)
    → ((p && is_free o) || (p && not (p && is_free o)) && is_held_by job (claimed job p o))
      ≡ (p && is_held_by job (claimed job p o))
won_cases job p none = ground (arith, ==_refl job)
won_cases job p (some other) = ground arith

won_twice :
    (job : String) (p q : Bool) (o : Option String)
    → (p && is_held_by job (claimed job p o)
        || q && is_held_by job (claimed job q (claimed job p o)))
      ≡ ((p || q) && is_held_by job (claimed job (p || q) o))
won_twice job p q none = ground (arith, ==_refl job)
won_twice job p q (some other) = ground arith

-- A claim of one chunk, then of all, then of the hashes as they are given.
part-owner :
    (now : ℕ) (job : String) (part : List String) (t : Table) (a : String)
    → owner a (claim_part now job part t).1 ≡ claimed job (mem a part) (owner a t)
unfolding claim_part
part-owner = insert-owner

part-mem :
    (now : ℕ) (job : String) (part : List String) (t : Table) (a : String)
    → IsKeyed key t
    → mem a (claim_part now job part t).0
      ≡ (mem a part && is_held_by job (claimed job (mem a part) (owner a t)))
unfolding claim_part
part-mem now job part t a k =
    let (inserted, u) = insert_records now job part t in
    let taken = delete (λ h. mem h inserted) part in
    mem-append a inserted (map key (select (is_own job taken) u))
    ∙ rw
        (
          own-mem job taken a u (insert-IsKeyed now job part t k),
          mem-delete (λ h. mem h inserted) a part,
          insert-mem now job part t a,
          insert-owner now job part t a,
        )
        (won_cases job (mem a part) (owner a t))

parts-owner :
    (now : ℕ) (job : String) (parts : List (List String)) (t : Table) (a : String)
    → owner a (claim_parts now job parts t).1 ≡ claimed job (mem a (concat parts)) (owner a t)
unfolding claim_parts
parts-owner now job [] t a = sym (claimed_no job (owner a t))
parts-owner now job (part ∷ parts) t a =
    parts-owner now job parts (claim_part now job part t).1 a
    ∙ rw (part-owner now job part t a, claimed_twice, mem-append a part (concat parts)) refl

pub parts-IsKeyed :
    (now : ℕ) (job : String) (parts : List (List String)) (t : Table)
    → IsKeyed key t
    → IsKeyed key (claim_parts now job parts t).1
unfolding claim_parts claim_part
parts-IsKeyed now job [] t k = k
parts-IsKeyed now job (part ∷ parts) t k =
    parts-IsKeyed now job parts _ (insert-IsKeyed now job part t k)

parts-mem :
    (now : ℕ) (job : String) (parts : List (List String)) (t : Table) (a : String)
    → IsKeyed key t
    → mem a (claim_parts now job parts t).0
      ≡ (mem a (concat parts) && is_held_by job (claimed job (mem a (concat parts)) (owner a t)))
unfolding claim_parts
parts-mem now job [] t a k = refl
parts-mem now job (part ∷ parts) t a k =
    let (won, u) = claim_part now job part t in
    mem-append a won (claim_parts now job parts u).0
    ∙ rw
        (
          part-mem now job part t a k,
          parts-mem now job parts u a (parts-IsKeyed now job (part ∷ []) t k),
          part-owner now job part t a,
          mem-append a part (concat parts),
        )
        (won_twice job (mem a part) (mem a (concat parts)) (owner a t))

pub asked :
    (a : String) (hashes : List String)
    → mem a (concat (chunks claim_chunk_size (unique hashes))) ≡ mem a hashes
asked a hashes =
    rw (concat-chunks claim_chunk_size (unique hashes) (omega arith)) (mem-unique a hashes)

-- What a claim does, on the map from hashes to jobs.
pub record Claims (job : String) (hashes : List String) (t : Table) (r : List String × Table)
    : Type 0 where
  pub owners : (a : String) → owner a r.1 ≡ claimed job (mem a hashes) (owner a t)
  pub won : (a : String) → mem a r.0 ≡ (mem a hashes && is_held_by job (owner a r.1))
  pub keyed : IsKeyed key r.1

-- In a table with one row a hash, a claim gives the free ones of its hashes to the job and changes
-- no other owner; the hashes that it returns are those of them that the job then holds; and no hash
-- gets a second row.
pub claim-Claims :
    (now : ℕ) (job : String) (hashes : List String) (t : Table)
    → IsKeyed key t
    → Claims job hashes t (claim_record_hashes now job hashes t)
unfolding claim_record_hashes
claim-Claims now job hashes t k =
    let parts = chunks claim_chunk_size (unique hashes) in
    record {
      owners = λ a. parts-owner now job parts t a ∙ rw (asked a hashes) refl;
      won = λ a.
          parts-mem now job parts t a k
          ∙ rw (asked a hashes, parts-owner now job parts t a, asked a hashes) refl;
      keyed = parts-IsKeyed now job parts t k;
    }
