-- ===== src/Dlq/Groups.antt =====
-- How due jobs are grouped: `_group_by_params` of reflowfy/reflow_manager/dlq_scheduler.py.
use reflowfy.Prelude.{
  String, Bool, true, false, ◌||◌, List, [], ◌∷◌, ◌++◌, map, if◌then◌else◌, ◌==◌, string_eq, ◌≡◌,
  refl, sym, ap, ◌∙◌, arith, Bool-cases, ◌⊎◌, inl, inr, mem, unique, unseen, unique-IsDistinct,
  mem-unique, IsDistinct, eq_of_==, ==_refl,
}
use mathlib.Core.Bool.{true≢false}
use mathlib.Core.List.{append-nil, append_assoc, map-append}
use reflowfy.Prelude.Sql.{select}
use reflowfy.Dlq.{DlqJob, add_to_groups, group_loop, group_by_params}

old_again :
    (x y : String) (seen xs : List String)
    → mem y seen ≡ true
    → (mem x seen || (y == x || mem x xs)) ≡ (mem x seen || mem x xs)
old_again x y seen xs h = elim (Bool-cases (y == x)) [
  | inl e ↦ rw (rw (eq_of_== y x e) at h) refl
  | inr e ↦ rw e refl
]

swap_seen : (a b c : Bool) → ((a || b) || c) ≡ (b || (a || c))
swap_seen a b c = ground arith

unseen-snoc :
    (x : String) (seen xs : List String)
    → unseen seen (xs ++ x ∷ [])
      ≡ (if mem x seen || mem x xs then unseen seen xs else unseen seen xs ++ x ∷ [])
unseen-snoc x seen [] = elim (Bool-cases (mem x seen)) [ inl h ↦ rw h refl | inr h ↦ rw h refl ]
unseen-snoc x seen (y ∷ xs) = elim (Bool-cases (mem y seen)) [
  | inl h ↦ rw (h, old_again x y seen xs h) (unseen-snoc x seen xs)
  | inr h ↦
      rw (h, unseen-snoc x (y ∷ seen) xs, swap_seen (y == x) (mem x seen) (mem x xs))
        (elim (Bool-cases (mem x seen || (y == x || mem x xs))) [
          | inl e ↦ rw e refl
          | inr e ↦ rw e refl
        ])
]

other : (a b : String) → (b == a) ≡ false → (a == b) ≡ false
other a b h = ground (arith, string_eq.decides a b, string_eq.decides b a)

module _ {ℓ} {A : Type ℓ} (key : A → String) where
  abbrev pub with_key : String → List A → List A
  with_key k = select (λ x. key x == k)

  abbrev pub group : List A → String → String × List A
  group xs k = (k, with_key k xs)

  with_key-snoc :
      (k : String) (xs : List A) (x : A)
      → with_key k (xs ++ x ∷ []) ≡ (if key x == k then with_key k xs ++ x ∷ [] else with_key k xs)
  unfolding select
  with_key-snoc k [] x = refl
  with_key-snoc k (y ∷ xs) x = elim (Bool-cases (key y == k)) [
    | inl h ↦
        rw (h, with_key-snoc k xs x)
          (elim (Bool-cases (key x == k)) [ inl e ↦ rw e refl | inr e ↦ rw e refl ])
    | inr h ↦ rw (h, with_key-snoc k xs x) refl
  ]

  with_key_none : (k : String) (xs : List A) → mem k (map key xs) ≡ false → with_key k xs ≡ []
  unfolding select
  with_key_none k [] h = refl
  with_key_none k (y ∷ xs) h = elim (Bool-cases (key y == k)) [
    | inl e ↦ absurd (true≢false (rw e at h))
    | inr e ↦ rw e (with_key_none k xs (rw e at h))
  ]

  hit_group :
      (k : String) (xs : List A) (x : A)
      → k ≡ key x
      → with_key k (xs ++ x ∷ []) ≡ with_key k xs ++ x ∷ []
  hit_group k xs x e = with_key-snoc k xs x ∙ rw (e, ==_refl (key x)) refl

  miss_group :
      (k : String) (xs : List A) (x : A)
      → (k == key x) ≡ false
      → with_key k (xs ++ x ∷ []) ≡ with_key k xs
  miss_group k xs x e = with_key-snoc k xs x ∙ rw (other (key x) k e) refl

  same_groups :
      (x : A) (xs : List A) (ks : List String)
      → mem (key x) ks ≡ false
      → map (group xs) ks ≡ map (group (xs ++ x ∷ [])) ks
  same_groups x xs [] h = refl
  same_groups x xs (k ∷ ks) h = elim (Bool-cases (k == key x)) [
    | inl e ↦ absurd (true≢false (rw e at h))
    | inr e ↦ rw (miss_group k xs x e, same_groups x xs ks (rw e at h)) refl
  ]

  add_group :
      (x : A) (xs : List A) (ks : List String)
      → IsDistinct ks
      → (mem (key x) ks ≡ true) ⊎ (with_key (key x) xs ≡ [])
      → add_to_groups (key x) x (map (group xs) ks)
        ≡ map (group (xs ++ x ∷ [])) (if mem (key x) ks then ks else ks ++ key x ∷ [])
  unfolding add_to_groups
  add_group x xs [] d fresh = elim fresh [
    | inl a ↦ absurd (true≢false (sym a))
    | inr n ↦ rw (hit_group (key x) xs x refl, n) refl
  ]
  add_group x xs (k ∷ ks) d fresh = elim (Bool-cases (k == key x)) [
    | inl e ↦ rw e (
        rw
          (
            hit_group k xs x (eq_of_== k (key x) e),
            same_groups x xs ks (rw (eq_of_== k (key x) e) at d.0),
          )
          refl)
    | inr e ↦ rw e (
        rw (add_group x xs ks d.1 (elim fresh [ inl a ↦ inl (rw e at a) | inr n ↦ inr n ]))
          (elim (Bool-cases (mem (key x) ks)) [
            | inl h ↦ rw (h, miss_group k xs x e) refl
            | inr h ↦ rw (h, miss_group k xs x e) refl
          ]))
  ]

  grouped : List A → List (String × List A)
  grouped xs = map (group xs) (unique (map key xs))

  grouped-snoc :
      (xs : List A) (x : A) → add_to_groups (key x) x (grouped xs) ≡ grouped (xs ++ x ∷ [])
  unfolding grouped unique
  grouped-snoc xs x =
      let keys = map key xs in
      let known = mem-unique (key x) keys in
      let fresh : (mem (key x) (unique keys) ≡ true) ⊎ (with_key (key x) xs ≡ []) =
        elim (Bool-cases (mem (key x) keys)) [
          | inl h ↦ inl (known ∙ h)
          | inr h ↦ inr (with_key_none (key x) xs h)
        ] in
      add_group x xs (unique keys) (unique-IsDistinct keys) fresh
      ∙ ap (map (group (xs ++ x ∷ [])))
          (rw (known, map-append key xs (x ∷ []), unseen-snoc (key x) [] keys) refl)

  group_loop-grouped : (xs done : List A) → group_loop key xs (grouped done) ≡ grouped (done ++ xs)
  unfolding group_loop
  group_loop-grouped [] done = ap grouped (sym (append-nil done))
  group_loop-grouped (x ∷ xs) done =
      ap (group_loop key xs) (grouped-snoc done x)
      ∙ group_loop-grouped xs (done ++ x ∷ [])
      ∙ ap grouped (append_assoc done (x ∷ []) xs)

-- The dict of lists: an entry for each distinct key, with the values that have it.
pub group_loop_correct {ℓ} :
    {A : Type ℓ} (key : A → String) (xs : List A)
    → group_loop key xs [] ≡ map (group key xs) (unique (map key xs))
unfolding grouped unique
group_loop_correct key xs = group_loop-grouped key xs []

seconds {ℓ} :
    {A : Type ℓ} (key : A → String) (xs : List A) (ks : List String)
    → map (λ g. g.1) (map (group key xs) ks) ≡ map (λ k. with_key key k xs) ks
seconds key xs [] = refl
seconds key xs (k ∷ ks) = ap (◌∷◌ (with_key key k xs)) (seconds key xs ks)

-- The due jobs are grouped by their params: there is one group for each distinct params, in the order
-- in which they are first seen, and it holds the jobs that have them, in their order.
pub group_by_params_correct :
    (key : DlqJob → String) (jobs : List DlqJob)
    → group_by_params key jobs ≡ map (λ k. with_key key k jobs) (unique (map key jobs))
unfolding group_by_params grouped unique
group_by_params_correct key jobs =
    ap (map (λ g. g.1)) (group_loop-grouped key jobs []) ∙ seconds key jobs (unique (map key jobs))
