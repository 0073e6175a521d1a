-- ===== src/Prelude/KeyedRows.antt =====
-- Rows that are added to a table with a primary key, and rows that are deleted.
use Prim.Native.String.{String}
use mathlib.Core.Path.{◌≡◌, refl, sym, ap, ◌∙◌}
use mathlib.Core.Logic.{◌≢◌, inl, inr}
use mathlib.Core.Bool.{Bool}
use Prim.Native.Nat.{◌+◌, ◌≤◌}
use native.Mathlib.Omega.{arith}
use mathlib.Core.List.{List, [], ◌∷◌, ◌++◌}
use mathlib.Core.Option.{Option, none, some, some-ne-none}
use reflowfy.Prelude.Tests.{if◌then◌else◌, Bool-cases, ◌==◌, string_eq, eq_of_==, ne_of_==}
use reflowfy.Prelude.Lists.{All, All-append}
use reflowfy.Prelude.Sql.{delete, All-delete, update, count}
use reflowfy.Prelude.Keyed.{IsKeyed, find, find_absent, at_key}

module _ {A : Type 0} (key : A → String) where
  pub absent_find : (id : String) (t : List A) → find key id t ≡ none → All (λ y. key y ≢ id) t
  unfolding find
  absent_find id [] h = tt
  absent_find id (x ∷ t) h = elim (Bool-cases (key x == id)) [
    | inl e ↦ absurd (some-ne-none x (rw e at h))
    | inr e ↦ (λ p. ne_of_== e (sym p), absent_find id t (rw e at h))
  ]

  pub append-IsKeyed :
      (t : List A) (y : A) → find key (key y) t ≡ none → IsKeyed key t → IsKeyed key (t ++ y ∷ [])
  unfolding find
  append-IsKeyed [] y h k = (tt, tt)
  append-IsKeyed (x ∷ t) y h k = elim (Bool-cases (key x == key y)) [
    | inl e ↦ absurd (some-ne-none x (rw e at h))
    | inr e ↦ (
      All-append (λ z. key z ≢ key x) t (y ∷ []) k.0 (ne_of_== e, tt),
      append-IsKeyed t y (rw e at h) k.1,
    )
  ]

  pub delete-IsKeyed : (p : A → Bool) (t : List A) → IsKeyed key t → IsKeyed key (delete p t)
  unfolding delete
  delete-IsKeyed p [] k = tt
  delete-IsKeyed p (x ∷ t) k = elim (Bool-cases (p x)) [
    | inl h ↦ rw h (delete-IsKeyed p t k.1)
    | inr h ↦ rw h (All-delete p (λ y. key y ≢ key x) t k.0, delete-IsKeyed p t k.1)
  ]

  -- A row that is left by a DELETE.
  abbrev pub spared : (A → Bool) → Option A → Option A
  spared p none = none
  spared p (some x) = if p x then none else some x

  pub find-delete :
      (p : A → Bool) (id : String) (t : List A)
      → IsKeyed key t
      → find key id (delete p t) ≡ spared p (find key id t)
  unfolding find delete
  find-delete p id [] k = refl
  find-delete p id (x ∷ t) k = elim (Bool-cases (key x == id)) [
    | inl e ↦ elim (Bool-cases (p x)) [
      | inl h ↦
          rw (e, h)
            (find-delete p id t k.1
              ∙ ap (spared p) (find_absent key id t (rw (eq_of_== (key x) id e) at k.0)))
      | inr h ↦ rw (e, h) (rw e refl)
    ]
    | inr e ↦ elim (Bool-cases (p x)) [
      | inl h ↦ rw (e, h) (find-delete p id t k.1)
      | inr h ↦ rw (e, h) (rw e (find-delete p id t k.1))
    ]
  ]

  abbrev HasKey : String → Option A → Type 0
  HasKey id none = Unit
  HasKey id (some x) = key x ≡ id

  find-HasKey : (id : String) (t : List A) → HasKey id (find key id t)
  unfolding find
  find-HasKey id [] = tt
  find-HasKey id (x ∷ t) = elim (Bool-cases (key x == id)) [
    | inl e ↦ rw e (eq_of_== (key x) id e)
    | inr e ↦ rw e (find-HasKey id t)
  ]

  pub key-find : (id : String) (t : List A) (x : A) → find key id t ≡ some x → key x ≡ id
  key-find id t x e = rw e at (find-HasKey id t)

  update_absent :
      (id : String) (q : A → Bool) (f : A → A) (t : List A)
      → All (λ y. key y ≢ id) t
      → update (at_key key id q) f t ≡ t
  unfolding update
  update_absent id q f [] h = refl
  update_absent id q f (x ∷ t) h = elim (Bool-cases (key x == id)) [
    | inl e ↦ absurd (h.0 (eq_of_== (key x) id e))
    | inr e ↦ rw e (ap (◌∷◌ x) (update_absent id q f t h.1))
  ]

  -- A statement on one key takes one row at most.
  pub count-update_keyed :
      (p : A → Bool) (id : String) (q : A → Bool) (f : A → A) (t : List A)
      → IsKeyed key t
      → count p (update (at_key key id q) f t) ≤ count p t + 1
  unfolding update count
  count-update_keyed p id q f [] k = omega arith
  count-update_keyed p id q f (x ∷ t) k = elim (Bool-cases (key x == id)) [
    | inl e ↦
        let rest : update (at_key key id q) f t ≡ t =
          update_absent id q f t (rw (eq_of_== (key x) id e) at k.0) in
        elim (Bool-cases (q x)) [
          | inl h ↦ rw (e, h, rest) (ground arith)
          | inr h ↦ rw (e, h, rest) (omega arith)
        ]
    | inr e ↦ rw e (omega (arith, count-update_keyed p id q f t k.1))
  ]
