-- ===== src/Prelude/Numbered.antt =====
-- Tables with a number for a primary key: what a statement on one key does to the rows of a key.
use Prim.Native.Nat.{ℕ}
use mathlib.Core.Path.{◌≡◌, refl, ap}
use mathlib.Core.Logic.{inl, inr}
use mathlib.Core.Bool.{Bool, true, false}
use mathlib.Core.List.{List, [], ◌∷◌, ◌++◌, map}
use reflowfy.Prelude.Tests.{if◌then◌else◌, Bool-cases, ◌==◌, nat_eq, eq_of_==, ==_refl}
use reflowfy.Prelude.Sql.{select, update, delete}

-- A statement on the rows of an id, seen from an id.
module _ {A : Type 0} (key : A → ℕ) where
  abbrev pub at_id : ℕ → A → Bool
  at_id i x = key x == i

  pub select-append_ne :
      (i : ℕ) (t : List A) (y : A)
      → (key y == i) ≡ false
      → select (at_id i) (t ++ y ∷ []) ≡ select (at_id i) t
  unfolding select
  select-append_ne i [] y n = rw n refl
  select-append_ne i (x ∷ t) y n = elim (Bool-cases (key x == i)) [
    | inl e ↦ rw e (ap (◌∷◌ x) (select-append_ne i t y n))
    | inr e ↦ rw e (select-append_ne i t y n)
  ]

  pub select-append_new :
      (i : ℕ) (t : List A) (y : A)
      → (key y == i) ≡ true
      → select (at_id i) (t ++ y ∷ []) ≡ select (at_id i) t ++ y ∷ []
  unfolding select
  select-append_new i [] y n = rw n refl
  select-append_new i (x ∷ t) y n = elim (Bool-cases (key x == i)) [
    | inl e ↦ rw e (ap (◌∷◌ x) (select-append_new i t y n))
    | inr e ↦ rw e (select-append_new i t y n)
  ]

  pub select-update_ne :
      (i k : ℕ) (f : A → A)
      → ((x : A) → key x ≡ k → key (f x) ≡ k)
      → (k == i) ≡ false
      → (t : List A) → select (at_id i) (update (at_id k) f t) ≡ select (at_id i) t
  unfolding select update
  select-update_ne i k f same n [] = refl
  select-update_ne i k f same n (x ∷ t) = elim (Bool-cases (key x == k)) [
    | inl e ↦
        rw (e, same x (eq_of_== (key x) k e), n, eq_of_== (key x) k e)
          (rw n (select-update_ne i k f same n t))
    | inr e ↦
        rw e (ap (λ rest. if key x == i then x ∷ rest else rest) (select-update_ne i k f same n t))
  ]

  pub select-update_self :
      (i : ℕ) (f : A → A)
      → ((x : A) → key x ≡ i → key (f x) ≡ i)
      → (t : List A) → select (at_id i) (update (at_id i) f t) ≡ map f (select (at_id i) t)
  unfolding select update
  select-update_self i f same [] = refl
  select-update_self i f same (x ∷ t) = elim (Bool-cases (key x == i)) [
    | inl e ↦
        rw (e, same x (eq_of_== (key x) i e), ==_refl i)
          (ap (◌∷◌ (f x)) (select-update_self i f same t))
    | inr e ↦ rw e (rw e (select-update_self i f same t))
  ]

  pub select-delete_ne :
      (i k : ℕ)
      → (k == i) ≡ false
      → (t : List A) → select (at_id i) (delete (at_id k) t) ≡ select (at_id i) t
  unfolding select delete
  select-delete_ne i k n [] = refl
  select-delete_ne i k n (x ∷ t) = elim (Bool-cases (key x == k)) [
    | inl e ↦ rw (e, eq_of_== (key x) k e, n) (select-delete_ne i k n t)
    | inr e ↦ rw e (ap (λ rest. if key x == i then x ∷ rest else rest) (select-delete_ne i k n t))
  ]

  pub select-delete_self : (i : ℕ) (t : List A) → select (at_id i) (delete (at_id i) t) ≡ []
  unfolding select delete
  select-delete_self i [] = refl
  select-delete_self i (x ∷ t) = elim (Bool-cases (key x == i)) [
    | inl e ↦ rw e (select-delete_self i t)
    | inr e ↦ rw e (rw e (select-delete_self i t))
  ]
