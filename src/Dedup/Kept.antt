-- ===== src/Dedup/Kept.antt =====
-- Which records are sent: kept_records of `_claim_records` in reflowfy/worker/executor.py.
use reflowfy.Prelude.{
  String, Bool, true, false, List, [], ◌∷◌, map, ◌==◌, string_eq, ◌≡◌, refl, ap, ◌∙◌, Bool-cases,
  mem, unique, unseen, All, ℕ, Option, some, none, if◌then◌else◌, IsDistinct, unique-IsDistinct,
  mem-unique, ==_refl, sym, ◌⊎◌, inl, inr, arith, eq_of_==,
}
use mathlib.Core.Bool.{true≢false}
use reflowfy.Prelude.Sql.{select}
use reflowfy.Prelude.Keyed.{IsKeyed}
use reflowfy.Dedup.{
  kept_records, ProcessedContent, Table, key, claim_record_hashes, claim_records, held_before,
}
use reflowfy.Dedup.Inserts.{owner, is_held_by}
use reflowfy.Dedup.Owners.{claim-Claims}

-- Two sets of what was seen that agree on the hashes won.
abbrev Agree : List String → List String → List String → Type 0
Agree won s1 s2 = (a : String) → mem a won ≡ true → mem a s1 ≡ mem a s2

module _ {ℓ} {A : Type ℓ} (hash_of : A → String) (won : List String) where
  Agree-seen : (h : String) (s1 s2 : List String) → Agree won s1 s2 → Agree won (h ∷ s1) (h ∷ s2)
  Agree-seen h s1 s2 g a w = ground (arith, g a w)

  Agree-lost :
      (h : String) (s1 s2 : List String)
      → mem h won ≡ false
      → Agree won s1 s2
      → Agree won s1 (h ∷ s2)
  Agree-lost h s1 s2 l g a w = elim (Bool-cases (h == a)) [
    | inl e ↦ absurd (true≢false (cc (l, w, eq_of_== h a e)))
    | inr e ↦ rw e (g a w)
  ]

-- The first of the records that have a hash.
abbrev pub first_with {ℓ} : {A : Type ℓ} → (A → String) → String → List A → Option A
first_with hash_of h [] = none
first_with hash_of h (r ∷ rs) = if hash_of r == h then some r else first_with hash_of h rs

module _ {ℓ} {A : Type ℓ} (hash_of : A → String) (won : List String) where
  -- Another record in front changes nothing for the hashes that it does not have.
  others_first :
      (r : A) (rs : List A) (seen : List String) (xs : List String)
      → mem (hash_of r) seen ≡ true
      → map (λ h. first_with hash_of h (r ∷ rs)) (select (λ h. mem h won) (unseen seen xs))
        ≡ map (λ h. first_with hash_of h rs) (select (λ h. mem h won) (unseen seen xs))
  unfolding select
  others_first r rs seen [] m = refl
  others_first r rs seen (x ∷ xs) m = elim (Bool-cases (mem x seen)) [
    | inl o ↦ rw o (others_first r rs seen xs m)
    | inr o ↦
        let apart : (hash_of r == x) ≡ false = elim (Bool-cases (hash_of r == x)) [
          | inl e ↦ absurd (true≢false (cc (m, o, eq_of_== (hash_of r) x e)))
          | inr e ↦ e
        ] in
        let rest = others_first r rs (x ∷ seen) xs (ground (arith, m)) in
        elim (Bool-cases (mem x won)) [
          | inl w ↦ rw (o, w) (rw apart (ap (◌∷◌ (first_with hash_of x rs)) rest))
          | inr w ↦ rw (o, w) rest
        ]
  ]

  first-kept_from :
      (s1 s2 : List String) (rs : List A)
      → Agree won s1 s2
      → map some (kept_records hash_of won s1 rs)
        ≡ map (λ h. first_with hash_of h rs) (select (λ h. mem h won) (unseen s2 (map hash_of rs)))
  unfolding kept_records select
  first-kept_from s1 s2 [] g = refl
  first-kept_from s1 s2 (r ∷ rs) g =
      let x = hash_of r in
      let hs = map hash_of rs in
      elim (Bool-cases (mem x won)) [
        | inl w ↦ elim (Bool-cases (mem x s2)) [
          | inl o ↦ rw (w, g x w, o) (first-kept_from s1 s2 rs g ∙ sym (others_first r rs s2 hs o))
          | inr o ↦
              rw (w, g x w, o, w)
                (rw (==_refl x) (
                  ap (◌∷◌ (some r)) (
                    first-kept_from (x ∷ s1) (x ∷ s2) rs (Agree-seen hash_of won x s1 s2 g)
                    ∙ sym (others_first r rs (x ∷ s2) hs (rw (==_refl x) refl)))))
        ]
        | inr w ↦ elim (Bool-cases (mem x s2)) [
          | inl o ↦ rw (w, o) (first-kept_from s1 s2 rs g ∙ sym (others_first r rs s2 hs o))
          | inr o ↦
              rw (w, o, w)
                (first-kept_from s1 (x ∷ s2) rs (Agree-lost hash_of won x s1 s2 w g)
                  ∙ sym (others_first r rs (x ∷ s2) hs (rw (==_refl x) refl)))
        ]
      ]

  pub first-kept_records :
      (rs : List A)
      → map some (kept_records hash_of won [] rs)
        ≡ map (λ h. first_with hash_of h rs) (select (λ h. mem h won) (unique (map hash_of rs)))
  unfolding unique
  first-kept_records rs = first-kept_from [] [] rs (λ a w. refl)

All-members {ℓ} :
    (P : String → Type ℓ) (xs : List String) → ((a : String) → mem a xs ≡ true → P a) → All P xs
All-members P [] f = tt
All-members P (x ∷ xs) f =
    (f x (rw (==_refl x) refl), All-members P xs (λ a m. f a (ground (arith, m))))

select_same :
    (p q : String → Bool) (xs : List String) → All (λ x. p x ≡ q x) xs → select p xs ≡ select q xs
unfolding select
select_same p q [] h = refl
select_same p q (x ∷ xs) h = elim (Bool-cases (q x)) [
  | inl e ↦ rw (h.0, e) (ap (◌∷◌ x) (select_same p q xs h.1))
  | inr e ↦ rw (h.0, e) (select_same p q xs h.1)
]

-- In a table with one row a hash, a job sends the first record of each hash that it holds after its claim, in the order of its
-- records, and no other record; or an earlier release has written the job, and then it sends
-- nothing and claims nothing.
pub claim_records_kept {ℓ} :
    {A : Type ℓ} (hash_of : A → String) (legacy : Option (List String × List ProcessedContent))
    (now : ℕ) (job : String) (records : List A) (t : Table)
    → IsKeyed key t
    → let r = claim_records hash_of legacy now job records t in
      let hashes = unique (map hash_of records) in
      ((held_before legacy job ≡ false)
        × (map some r.0.0
            ≡ map
                (λ h. first_with hash_of h records)
                (select (λ h. is_held_by job (owner h r.1)) hashes))
        × IsDistinct hashes)
      ⊎ ((held_before legacy job ≡ true) × (r ≡ (([], []), t)))
unfolding claim_records
claim_records_kept hash_of legacy now job records t k = elim (Bool-cases (held_before legacy job)) [
  | inl h ↦ inr (h, rw h refl)
  | inr h ↦
      let hashes = map hash_of records in
      let (won, u) = claim_record_hashes now job hashes t in
      let c = claim-Claims now job hashes t k in
      inl (
        h,
        rw h (
            first-kept_records hash_of won records
            ∙ ap (map (λ h. first_with hash_of h records)) (
                select_same (λ a. mem a won) (λ a. is_held_by job (owner a u)) (unique hashes)
                  (All-members (λ a. mem a won ≡ is_held_by job (owner a u)) (unique hashes)
                    (λ a m. c.won a ∙ rw (sym (mem-unique a hashes) ∙ m) refl)))),
        unique-IsDistinct hashes,
      )
]
