-- ===== src/Dedup/Examples.antt =====
-- A small table of record hashes, and the theorems of Dedup at it.
use reflowfy.Prelude.{
  ℕ, String, Bool, true, false, ◌==◌, string_eq, none, some, List, [], ◌∷◌, ◌≡◌, refl, inl, inr,
  arith, chunks, unique, mem, ◌&&◌, map, ltb, if◌then◌else◌, ◌⊎◌, ◌<◌, ◌≢◌, IsDistinct,
}
use reflowfy.Prelude.Sql.{select, delete, count}
use reflowfy.Prelude.Keyed.{find, IsKeyed}
use reflowfy.Json.{Json, Fields}
use reflowfy.Dedup.{
  Table, key, new_record, claim_parts, claim_part, insert_records, claim_record_hashes,
  claim_records, held_before, identity, compute_record_hash, purge_in_chunks,
}
use reflowfy.Dedup.Inserts.{owner, is_held_by}
use reflowfy.Dedup.Owners.{Claims, claim-Claims}
use reflowfy.Dedup.Exclusive.{Act, acts, records_exclusive}
use reflowfy.Dedup.Kept.{first_with, claim_records_kept}
use reflowfy.Dedup.Secrets.{Rotated, RotatedFields, RotatedOption, rotation_keeps_hash}
use reflowfy.Dedup.Purge.{purge_in_chunks_all}

-- Job "a" holds "x".
abbrev table : Table
table = new_record 1 "a" "x" ∷ []

table-IsKeyed : IsKeyed key table
table-IsKeyed = (tt, tt)

abbrev between : List Act
between = Act.insert 3 "c" ("y" ∷ "w" ∷ []) ∷ Act.drop "c" ("y" ∷ []) ∷ Act.drop "b" ("z" ∷ []) ∷ []

-- Job "b" has asked for "x", "y" and "z" and won the last two.
won-y : (claim_record_hashes 2 "b" ("x" ∷ "y" ∷ "z" ∷ "y" ∷ []) table).0 ≡ "y" ∷ "z" ∷ []
unfolding claim_record_hashes claim_parts claim_part insert_records chunks unique select delete find
won-y = refl

won-x_not :
    mem {A = String} "y" (claim_record_hashes 2 "b" ("x" ∷ "y" ∷ "z" ∷ "y" ∷ []) table).0 ≡ true
won-x_not = rw won-y refl

c≢b : ◌≢◌ {A = String} "c" "b"
c≢b p = ground (arith, string_eq.decides "c" "b", p)

records_exclusive_example :
    mem {A = String} "y"
      (claim_record_hashes 5 "c"
        ("y" ∷ [])
        (acts between (claim_record_hashes 2 "b" ("x" ∷ "y" ∷ "z" ∷ "y" ∷ []) table).1)).0
    ≡ (mem {A = String} "y" ("y" ∷ []) && ◌==◌ {A = String} "b" "c")
records_exclusive_example =
    records_exclusive 2 5 "b" "c" "y" ("x" ∷ "y" ∷ "z" ∷ "y" ∷ []) ("y" ∷ []) between table
      table-IsKeyed won-x_not (tt, (inl c≢b, (inr refl, tt)))

claim-Claims_example :
    Claims "b" ("x" ∷ "y" ∷ []) table (claim_record_hashes 2 "b" ("x" ∷ "y" ∷ []) table)
claim-Claims_example = claim-Claims 2 "b" ("x" ∷ "y" ∷ []) table table-IsKeyed

-- Two records with one hash.
abbrev first_letters : String → String
first_letters r = if r == "y2" then "y" else r

claim_records_kept_example :
    let r = claim_records first_letters none 2 "b" ("x" ∷ "y" ∷ "y2" ∷ []) table in
    let hashes = unique (map first_letters ("x" ∷ "y" ∷ "y2" ∷ [])) in
    ((held_before none "b" ≡ false)
      × (map some r.0.0
          ≡ map
              (λ h. first_with first_letters h ("x" ∷ "y" ∷ "y2" ∷ []))
              (select (λ h. is_held_by "b" (owner h r.1)) hashes))
      × IsDistinct hashes)
    ⊎ ((held_before none "b" ≡ true) × (r ≡ (([], []), table)))
claim_records_kept_example =
    claim_records_kept first_letters none 2 "b" ("x" ∷ "y" ∷ "y2" ∷ []) table table-IsKeyed

-- A stand-in for the hash.
abbrev sketch : Json → String
sketch (Json.obj (Fields.field k (Json.str name) rest)) = name
sketch v = ""

abbrev config : String → Json
config password = Json.obj (
    Fields.field "url" (Json.str "kafka:9092")
      (Fields.field "password" (Json.str password) Fields.end))

rotation_keeps_hash_example :
    compute_record_hash sketch "p"
      (Json.num 7)
      (identity (λ k. k == "password") "KafkaDestination" none (config "old"))
      Fields.end
    ≡ compute_record_hash sketch "p"
        (Json.num 7)
        (identity (λ k. k == "password") "KafkaDestination" none (config "new"))
        Fields.end
rotation_keeps_hash_example =
    rotation_keeps_hash (λ k. k == "password") sketch "p" "KafkaDestination" (Json.num 7) Fields.end
      none none (config "old") (config "new") RotatedOption.absent
      (Rotated.obj (RotatedFields.plain Rotated.same (RotatedFields.secret refl RotatedFields.end)))

abbrev expired : ℕ → Bool
expired n = ltb n 10

few : count expired (1 ∷ 20 ∷ 2 ∷ 3 ∷ 4 ∷ 5 ∷ []) < 6
unfolding count
few = omega arith

-- Two full rounds of two, and a third that finds one.
purge_in_chunks_all_example :
    purge_in_chunks 6 expired 2 (1 ∷ 20 ∷ 2 ∷ 3 ∷ 4 ∷ 5 ∷ [])
    ≡ some
        (count expired (1 ∷ 20 ∷ 2 ∷ 3 ∷ 4 ∷ 5 ∷ []), delete expired (1 ∷ 20 ∷ 2 ∷ 3 ∷ 4 ∷ 5 ∷ []))
purge_in_chunks_all_example =
    purge_in_chunks_all expired 6 2 (1 ∷ 20 ∷ 2 ∷ 3 ∷ 4 ∷ 5 ∷ []) (omega arith) few
