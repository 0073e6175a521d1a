-- ===== src/Prelude/Sql.antt =====
-- SQL statements on a table, which is the list of its rows in the order of insertion.
use Prim.Native.Nat.{ℕ, ◌+◌, ◌≤◌}
use mathlib.Core.Path.{◌≡◌, refl, ap}
use mathlib.Core.Bool.{Bool, true, false, ◌||◌}
use mathlib.Core.List.{List, [], ◌∷◌, ◌++◌, map}
use mathlib.Core.Option.{Option, none, some}
use native.Mathlib.Omega.{arith}
use reflowfy.Prelude.Tests.{if◌then◌else◌, Bool-cases}
use mathlib.Core.Logic.{inl, inr}
use reflowfy.Prelude.Lists.{length, All}

module _ {ℓ} {A : Type ℓ} where
  -- SELECT … WHERE p
  unfoldable pub select : (A → Bool) → List A → List A
  select p [] = []
  select p (x ∷ xs) = let rest = select p xs in if p x then x ∷ rest else rest

  -- UPDATE … SET f WHERE p
  unfoldable pub update : (A → Bool) → (A → A) → List A → List A
  update p f [] = []
  update p f (x ∷ xs) = (if p x then f x else x) ∷ update p f xs

  -- DELETE … WHERE p
  unfoldable pub delete : (A → Bool) → List A → List A
  delete p [] = []
  delete p (x ∷ xs) = let rest = delete p xs in if p x then rest else x ∷ rest

  -- SELECT count(*) … WHERE p, and the row count of an UPDATE or a DELETE
  unfoldable pub count : (A → Bool) → List A → ℕ
  count p [] = 0
  count p (x ∷ xs) = (if p x then 1 else 0) + count p xs

  -- .first()
  unfoldable pub first : List A → Option A
  first [] = none
  first (x ∷ xs) = some x

  unfoldable pub any : (A → Bool) → List A → Bool
  any p [] = false
  any p (x ∷ xs) = p x || any p xs

  -- ORDER BY: an insertion sort, so that rows with equal keys keep their order.
  unfoldable pub insert_by : (A → A → Bool) → A → List A → List A
  insert_by le x [] = x ∷ []
  insert_by le x (y ∷ ys) = let rest = insert_by le x ys in if le x y then x ∷ y ∷ ys else y ∷ rest

  unfoldable pub order_by : (A → A → Bool) → List A → List A
  order_by le [] = []
  order_by le (x ∷ xs) = insert_by le x (order_by le xs)

  -- Two tables with the same rows in the same places, each pair of rows related.
  pub data Rows {κ} (R : A → A → Type κ) : List A → List A → Type (ℓ ⊔ κ) where
    nil : Rows R [] []
    cons : {x y : A} {xs ys : List A} → R x y → Rows R xs ys → Rows R (x ∷ xs) (y ∷ ys)

module _ {ℓ} {A : Type ℓ} (p : A → Bool) where
  pub All-select_self : (xs : List A) → All (λ x. p x ≡ true) (select p xs)
  unfolding select
  All-select_self [] = tt
  All-select_self (x ∷ xs) = elim (Bool-cases (p x)) [
    | inl h ↦ rw h (h, All-select_self xs)
    | inr h ↦ rw h (All-select_self xs)
  ]

  pub All-select {κ} : (P : A → Type κ) (xs : List A) → All P xs → All P (select p xs)
  unfolding select
  All-select P [] h = tt
  All-select P (x ∷ xs) h = elim (Bool-cases (p x)) [
    | inl t ↦ rw t (h.0, All-select P xs h.1)
    | inr t ↦ rw t (All-select P xs h.1)
  ]

  pub All-delete {κ} : (P : A → Type κ) (xs : List A) → All P xs → All P (delete p xs)
  unfolding delete
  All-delete P [] h = tt
  All-delete P (x ∷ xs) h = elim (Bool-cases (p x)) [
    | inl t ↦ rw t (All-delete P xs h.1)
    | inr t ↦ rw t (h.0, All-delete P xs h.1)
  ]

  pub All-update {κ} :
      (P : A → Type κ) (f : A → A)
      → ((x : A) → P x → p x ≡ true → P (f x))
      → (xs : List A) → All P xs
      → All P (update p f xs)
  unfolding update
  All-update P f keep [] h = tt
  All-update P f keep (x ∷ xs) h = elim (Bool-cases (p x)) [
    | inl t ↦ rw t (keep x h.0 t, All-update P f keep xs h.1)
    | inr t ↦ rw t (h.0, All-update P f keep xs h.1)
  ]

  -- What holds of the rows that are written and of those that are left.
  pub All-update_cases {κ} :
      (Q : A → Type κ) (f : A → A)
      → ((x : A) → p x ≡ true → Q (f x))
      → ((x : A) → p x ≡ false → Q x)
      → (xs : List A) → All Q (update p f xs)
  unfolding update
  All-update_cases Q f hit miss [] = tt
  All-update_cases Q f hit miss (x ∷ xs) = elim (Bool-cases (p x)) [
    | inl t ↦ rw t (hit x t, All-update_cases Q f hit miss xs)
    | inr t ↦ rw t (miss x t, All-update_cases Q f hit miss xs)
  ]

  pub Rows-update {κ} :
      (R : A → A → Type κ) (f : A → A)
      → ((x : A) → R x x)
      → ((x : A) → p x ≡ true → R x (f x))
      → (xs : List A) → Rows R xs (update p f xs)
  unfolding update
  Rows-update R f same hit [] = Rows.nil
  Rows-update R f same hit (x ∷ xs) = elim (Bool-cases (p x)) [
    | inl t ↦ rw t (Rows.cons (hit x t) (Rows-update R f same hit xs))
    | inr t ↦ rw t (Rows.cons (same x) (Rows-update R f same hit xs))
  ]

  pub length-update : (f : A → A) (xs : List A) → length (update p f xs) ≡ length xs
  unfolding update
  length-update f [] = refl
  length-update f (x ∷ xs) = omega (arith, length-update f xs)

  pub length-select : (xs : List A) → length (select p xs) ≡ count p xs
  unfolding select count
  length-select [] = refl
  length-select (x ∷ xs) = ground (arith, length-select xs)

  pub count-le-length : (xs : List A) → count p xs ≤ length xs
  unfolding count
  count-le-length [] = omega arith
  count-le-length (x ∷ xs) = ground (arith, count-le-length xs)

  pub count_zero : (xs : List A) → All (λ x. p x ≡ false) xs → count p xs ≡ 0
  unfolding count
  count_zero [] h = refl
  count_zero (x ∷ xs) h = ground (arith, count_zero xs h.1)

  pub count-append : (xs ys : List A) → count p (xs ++ ys) ≡ count p xs + count p ys
  unfolding count
  count-append [] ys = omega arith
  count-append (x ∷ xs) ys = ground (arith, count-append xs ys)

  -- An UPDATE that does not change which of the rows fit.
  pub count-update_same :
      (q : A → Bool) (f : A → A)
      → ((x : A) → q x ≡ true → p (f x) ≡ p x)
      → (xs : List A) → count p (update q f xs) ≡ count p xs
  unfolding count update
  count-update_same q f same [] = refl
  count-update_same q f same (x ∷ xs) = elim (Bool-cases (q x)) [
    | inl t ↦
        rw (t, same x t) (ap (λ n. (if p x then 1 else 0) + n) (count-update_same q f same xs))
    | inr t ↦ rw t (ap (λ n. (if p x then 1 else 0) + n) (count-update_same q f same xs))
  ]

-- An UPDATE one row at a time, and statements that run one after the other.
abbrev pub update_row {ℓ} : {A : Type ℓ} → (A → Bool) → (A → A) → A → A
update_row p f x = if p x then f x else x

module _ {ℓ} {A : Type ℓ} where
  pub update-eq-map :
      (p : A → Bool) (f : A → A) (xs : List A) → update p f xs ≡ map (update_row p f) xs
  unfolding update
  update-eq-map p f [] = refl
  update-eq-map p f (x ∷ xs) = ap (◌∷◌ (update_row p f x)) (update-eq-map p f xs)

  pub update-update :
      (p q : A → Bool) (f g : A → A) (xs : List A)
      → update p f (update q g xs) ≡ map (λ x. update_row p f (update_row q g x)) xs
  unfolding update
  update-update p q f g [] = refl
  update-update p q f g (x ∷ xs) = rw (update-update p q f g xs)

  pub update-map :
      (p : A → Bool) (f g : A → A) (xs : List A)
      → update p f (map g xs) ≡ map (λ x. update_row p f (g x)) xs
  unfolding update
  update-map p f g [] = refl
  update-map p f g (x ∷ xs) = rw (update-map p f g xs)

  pub Rows-map {κ} :
      (R : A → A → Type κ) (g : A → A)
      → ((x : A) → R x (g x))
      → (xs : List A) → Rows R xs (map g xs)
  Rows-map R g h [] = Rows.nil
  Rows-map R g h (x ∷ xs) = Rows.cons (h x) (Rows-map R g h xs)

  pub Rows-refl {κ} : (R : A → A → Type κ) → ((x : A) → R x x) → (xs : List A) → Rows R xs xs
  Rows-refl R h [] = Rows.nil
  Rows-refl R h (x ∷ xs) = Rows.cons (h x) (Rows-refl R h xs)

  pub All-map {κ} :
      (P : A → Type κ) (g : A → A)
      → ((x : A) → P x → P (g x))
      → (xs : List A) → All P xs
      → All P (map g xs)
  All-map P g keep [] h = tt
  All-map P g keep (x ∷ xs) h = (keep x h.0, All-map P g keep xs h.1)

  pub Rows-All {κ μ ν} :
      (R : A → A → Type κ) (P : A → Type μ) (Q : A → Type ν)
      → ((x y : A) → R x y → P x → Q y)
      → {xs ys : List A} → Rows R xs ys
      → All P xs
      → All Q ys
  Rows-All R P Q f nil h = tt
  Rows-All R P Q f (cons {x = x} {y = y} r rs) h = (f x y r h.0, Rows-All R P Q f rs h.1)

  pub Rows-imp {κ μ} :
      (R : A → A → Type κ) (S : A → A → Type μ)
      → ((x y : A) → R x y → S x y)
      → {xs ys : List A} → Rows R xs ys
      → Rows S xs ys
  Rows-imp R S f nil = Rows.nil
  Rows-imp R S f (cons {x = x} {y = y} r rs) = Rows.cons (f x y r) (Rows-imp R S f rs)

  pub Rows-trans {κ} :
      (R : A → A → Type κ)
      → ((x y z : A) → R x y → R y z → R x z)
      → {xs ys zs : List A} → Rows R xs ys
      → Rows R ys zs
      → Rows R xs zs
  Rows-trans R f nil nil = Rows.nil
  Rows-trans R f (cons {x = x} {y = y} r rs) (cons {y = z} q qs) =
      Rows.cons (f x y z r q) (Rows-trans R f rs qs)

-- An UPDATE whose rows fit after it only if they did before.
pub count-update_le {ℓ} :
    {A : Type ℓ} (p q : A → Bool) (f : A → A)
    → ((x : A) → q x ≡ true → p (f x) ≡ true → p x ≡ true)
    → (xs : List A) → count p (update q f xs) ≤ count p xs
unfolding count update
count-update_le p q f old [] = omega arith
count-update_le p q f old (x ∷ xs) = elim (Bool-cases (q x)) [
  | inl t ↦ elim (Bool-cases (p (f x))) [
    | inl h ↦ rw (t, h, old x t h) (omega (arith, count-update_le p q f old xs))
    | inr h ↦ rw (t, h) (omega (arith, count-update_le p q f old xs))
  ]
  | inr t ↦ rw t (omega (arith, count-update_le p q f old xs))
]
