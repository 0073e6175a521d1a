-- ===== src/Prelude/Members.antt =====
-- Sets as lists of their members: `x in xs` and `list(dict.fromkeys(xs))`.
use mathlib.Core.Path.{◌≡◌, refl, sym}
use mathlib.Core.Logic.{inl, inr}
use mathlib.Core.Bool.{Bool, true, false, ◌||◌, ◌&&◌, not, true≢false}
use mathlib.Core.List.{List, [], ◌∷◌, ◌++◌}
use native.Mathlib.Omega.{arith}
use reflowfy.Prelude.Tests.{Equality, ◌==◌, if◌then◌else◌, Bool-cases, ==_refl, eq_of_==}
use reflowfy.Prelude.Sql.{select, delete}

module _ {ℓ} {A : Type ℓ} ⦃test : Equality A⦄ where
  abbrev pub mem : A → List A → Bool
  mem a [] = false
  mem a (x ∷ xs) = x == a || mem a xs

  -- The first occurrences of the elements that are not in `seen`.
  abbrev pub unseen : List A → List A → List A
  unseen seen [] = []
  unseen seen (x ∷ xs) =
      let new = x ∷ unseen (x ∷ seen) xs in
      let old = unseen seen xs in if mem x seen then old else new

  unfoldable pub unique : List A → List A
  unique xs = unseen [] xs

  pub mem-append : (a : A) (xs ys : List A) → mem a (xs ++ ys) ≡ (mem a xs || mem a ys)
  mem-append a [] ys = refl
  mem-append a (x ∷ xs) ys = ground (arith, mem-append a xs ys)

  mem-unseen :
      (a : A) (seen xs : List A) → (mem a seen || mem a (unseen seen xs)) ≡ (mem a seen || mem a xs)
  mem-unseen a seen [] = refl
  mem-unseen a seen (x ∷ xs) = elim (Bool-cases (mem x seen)) [
    | inl h ↦ elim (Bool-cases (x == a)) [
      | inl e ↦ rw (h, e) (ground (arith, mem-unseen a seen xs, rw (eq_of_== x a e) at h))
      | inr e ↦ rw (h, e) (mem-unseen a seen xs)
    ]
    | inr h ↦ rw h (ground (arith, mem-unseen a (x ∷ seen) xs))
  ]

  pub mem-unique : (a : A) (xs : List A) → mem a (unique xs) ≡ mem a xs
  unfolding unique
  mem-unique a xs = mem-unseen a [] xs

  abbrev pub IsDistinct : List A → Type 0
  IsDistinct [] = Unit
  IsDistinct (x ∷ xs) = (mem x xs ≡ false) × IsDistinct xs

  unseen-IsNew : (a : A) (seen xs : List A) → mem a seen ≡ true → mem a (unseen seen xs) ≡ false
  unseen-IsNew a seen [] h = refl
  unseen-IsNew a seen (x ∷ xs) h = elim (Bool-cases (mem x seen)) [
    | inl o ↦ rw o (unseen-IsNew a seen xs h)
    | inr o ↦ elim (Bool-cases (x == a)) [
      | inl e ↦ absurd (true≢false (cc (o, h, eq_of_== x a e)))
      | inr e ↦ rw (o, e) (unseen-IsNew a (x ∷ seen) xs (rw (e, h) refl))
    ]
  ]

  unseen-IsDistinct : (seen xs : List A) → IsDistinct (unseen seen xs)
  unseen-IsDistinct seen [] = tt
  unseen-IsDistinct seen (x ∷ xs) = elim (Bool-cases (mem x seen)) [
    | inl o ↦ rw o (unseen-IsDistinct seen xs)
    | inr o ↦
        rw o (unseen-IsNew x (x ∷ seen) xs (rw (==_refl x) refl), unseen-IsDistinct (x ∷ seen) xs)
  ]

  pub unique-IsDistinct : (xs : List A) → IsDistinct (unique xs)
  unfolding unique
  unique-IsDistinct xs = unseen-IsDistinct [] xs

  pub mem-select : (p : A → Bool) (a : A) (xs : List A) → mem a (select p xs) ≡ (mem a xs && p a)
  unfolding select
  mem-select p a [] = refl
  mem-select p a (x ∷ xs) = elim (Bool-cases (x == a)) [
    | inl e ↦ elim (Bool-cases (p x)) [
      | inl h ↦ rw (h, e) (sym (rw (eq_of_== x a e) at h))
      | inr h ↦ rw (h, e, mem-select p a xs) (ground (arith, rw (eq_of_== x a e) at h))
    ]
    | inr e ↦ elim (Bool-cases (p x)) [
      | inl h ↦ rw (h, e) (mem-select p a xs)
      | inr h ↦ rw (h, e) (mem-select p a xs)
    ]
  ]

  pub mem-delete :
      (p : A → Bool) (a : A) (xs : List A) → mem a (delete p xs) ≡ (mem a xs && not (p a))
  unfolding delete
  mem-delete p a [] = refl
  mem-delete p a (x ∷ xs) = elim (Bool-cases (x == a)) [
    | inl e ↦ elim (Bool-cases (p x)) [
      | inl h ↦ rw (h, e, mem-delete p a xs) (ground (arith, rw (eq_of_== x a e) at h))
      | inr h ↦ rw (h, e) (ground (arith, rw (eq_of_== x a e) at h))
    ]
    | inr e ↦ elim (Bool-cases (p x)) [
      | inl h ↦ rw (h, e) (mem-delete p a xs)
      | inr h ↦ rw (h, e) (mem-delete p a xs)
    ]
  ]
