-- ===== src/Prelude/Keyed.antt =====
-- Tables with a text for a primary key: the row of a key, and statements WHERE key = id AND q.
use Prim.Native.Nat.{ℕ}
use Prim.Native.String.{String}
use mathlib.Core.Path.{◌≡◌, refl, ap, ◌∙◌}
use mathlib.Core.Logic.{◌≢◌, inl, inr}
use mathlib.Core.Bool.{Bool, ◌&&◌}
use mathlib.Core.List.{List, [], ◌∷◌, ◌++◌}
use mathlib.Core.Option
use mathlib.Core.Option.{Option, none, some}
use native.Mathlib.Omega.{arith}
use reflowfy.Prelude.Tests.{if◌then◌else◌, Bool-cases, ◌==◌, string_eq, eq_of_==}
use reflowfy.Prelude.Lists.{All}
use reflowfy.Prelude.Sql.{count, update, update_row}

module _ {A : Type 0} (key : A → String) where
  -- No two rows have one key.
  abbrev pub IsKeyed : List A → Type 0
  IsKeyed [] = Unit
  IsKeyed (x ∷ t) = All (λ y. key y ≢ key x) t × IsKeyed t

  -- The row of a key.
  unfoldable pub find : String → List A → Option A
  find id [] = none
  find id (x ∷ t) = let rest = find id t in if key x == id then some x else rest

  pub find_absent : (id : String) (t : List A) → All (λ y. key y ≢ id) t → find id t ≡ none
  unfolding find
  find_absent id [] h = refl
  find_absent id (x ∷ t) h = elim (Bool-cases (key x == id)) [
    | inl e ↦ absurd (h.0 (eq_of_== (key x) id e))
    | inr e ↦ rw e (find_absent id t h.1)
  ]

  abbrev pub at_key : String → (A → Bool) → A → Bool
  at_key id q x = key x == id && q x

  abbrev pub fits : (A → Bool) → Option A → ℕ
  fits q none = 0
  fits q (some x) = if q x then 1 else 0

  -- How many rows such a statement takes.
  pub count_keyed :
      (id : String) (q : A → Bool) (t : List A)
      → IsKeyed t
      → count (at_key id q) t ≡ fits q (find id t)
  unfolding count find
  count_keyed id q [] k = refl
  count_keyed id q (x ∷ t) k = elim (Bool-cases (key x == id)) [
    | inl e ↦
        let gone : All (λ y. key y ≢ id) t = rw (eq_of_== (key x) id e) at k.0 in
        let none_left : count (at_key id q) t ≡ 0 =
          count_keyed id q t k.1 ∙ ap (fits q) (find_absent id t gone) in
        rw e (ground (arith, none_left))
    | inr e ↦ rw e (ground (arith, count_keyed id q t k.1))
  ]

  pub find-append_ne :
      (i : String) (t : List A) (y : A) → key y ≢ i → find i (t ++ y ∷ []) ≡ find i t
  unfolding find
  find-append_ne i [] y n = ground (arith, string_eq.decides (key y) i)
  find-append_ne i (x ∷ t) y n =
      ap (λ (o : Option A). if key x == i then some x else o) (find-append_ne i t y n)

  pub find-append_new :
      (t : List A) (y : A) → find (key y) t ≡ none → find (key y) (t ++ y ∷ []) ≡ some y
  unfolding find
  find-append_new [] y h = ground (arith, string_eq.decides (key y) (key y))
  find-append_new (x ∷ t) y h = ground (arith, find-append_new t y)

  module _ (q : A → Bool) (f : A → A) (same_key : (x : A) → key (f x) ≡ key x) where
    -- The row of a key after the statement.
    pub find-update :
        (i : String) (t : List A) → find i (update q f t) ≡ Option.map (update_row q f) (find i t)
    unfolding find update
    find-update i [] = refl
    find-update i (x ∷ t) = elim (Bool-cases (q x)) [
      | inl h ↦ elim (Bool-cases (key x == i)) [
        | inl e ↦ rw (h, same_key x, e) (rw h)
        | inr e ↦ rw (h, same_key x, e) (find-update i t)
      ]
      | inr h ↦ elim (Bool-cases (key x == i)) [
        | inl e ↦ rw (h, e) (rw h)
        | inr e ↦ rw (h, e) (find-update i t)
      ]
    ]

    update_absent :
        (i : String) (t : List A) → All (λ y. key y ≢ i) t → All (λ y. key y ≢ i) (update q f t)
    unfolding update
    update_absent i [] h = tt
    update_absent i (x ∷ t) h = elim (Bool-cases (q x)) [
      | inl e ↦ rw (e, same_key x) (h.0, update_absent i t h.1)
      | inr e ↦ rw e (h.0, update_absent i t h.1)
    ]

    pub update-IsKeyed : (t : List A) → IsKeyed t → IsKeyed (update q f t)
    unfolding update
    update-IsKeyed [] k = tt
    update-IsKeyed (x ∷ t) k = elim (Bool-cases (q x)) [
      | inl e ↦ rw (e, same_key x) (update_absent (key x) t k.0, update-IsKeyed t k.1)
      | inr e ↦ rw e (update_absent (key x) t k.0, update-IsKeyed t k.1)
    ]

    -- A statement at one key: its row, and the row of any other key.
    pub find-update_self :
        (id : String) (t : List A)
        → find id (update (at_key id q) f t) ≡ Option.map (update_row q f) (find id t)
    unfolding find update
    find-update_self id [] = refl
    find-update_self id (x ∷ t) = elim (Bool-cases (key x == id)) [
      | inl e ↦ elim (Bool-cases (q x)) [
        | inl h ↦ rw (e, h, same_key x) (rw e)
        | inr h ↦ rw (e, h) (rw e)
      ]
      | inr e ↦ rw (e) (rw e (find-update_self id t))
    ]

    pub find-update_ne :
        (id i : String) (t : List A) → i ≢ id → find i (update (at_key id q) f t) ≡ find i t
    unfolding find update
    find-update_ne id i [] n = refl
    find-update_ne id i (x ∷ t) n = elim (Bool-cases (key x == id)) [
      | inl e ↦ ground (
        arith,
        find-update_ne id i t n,
        same_key x,
        string_eq.decides (key x) i,
        string_eq.decides (key x) id,
      )
      | inr e ↦
          rw e (ap (λ (o : Option A). if key x == i then some x else o) (find-update_ne id i t n))
    ]
