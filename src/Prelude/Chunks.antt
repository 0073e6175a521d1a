-- ===== src/Prelude/Chunks.antt =====
-- `[items[i : i + size] for i in range(0, len(items), size)]`
use Prim.Native.Nat.{ℕ, zero, suc, ◌≤◌}
use mathlib.Core.Path.{◌≡◌, refl, ap, ◌∙◌}
use mathlib.Core.List.{List, [], ◌∷◌, ◌++◌}
use native.Mathlib.Omega.{arith}
use reflowfy.Prelude.Lists.{
  length, length-append, take, drop, take-append-drop, length-take, length-drop, All,
}

module _ {ℓ} {A : Type ℓ} where
  -- `fuel` is at least the length of the list.
  abbrev chunks_from : ℕ → ℕ → List A → List (List A)
  chunks_from zero size xs = []
  chunks_from (suc fuel) size [] = []
  chunks_from (suc fuel) size (x ∷ xs) =
      take size (x ∷ xs) ∷ chunks_from fuel size (drop size (x ∷ xs))

  unfoldable pub chunks : ℕ → List A → List (List A)
  chunks size xs = chunks_from (length xs) size xs

  abbrev pub concat : List (List A) → List A
  concat [] = []
  concat (xs ∷ xss) = xs ++ concat xss

  drop_shorter :
      (n size : ℕ) (x : A) (xs : List A)
      → length (x ∷ xs) ≤ suc n
      → 1 ≤ size
      → length (drop size (x ∷ xs)) ≤ n
  drop_shorter n size x xs h s = omega (arith, length-drop size (x ∷ xs))

  concat_from :
      (fuel size : ℕ) (xs : List A)
      → length xs ≤ fuel
      → 1 ≤ size
      → concat (chunks_from fuel size xs) ≡ xs
  concat_from zero size [] h s = refl
  concat_from zero size (x ∷ xs) h s = absurd (omega arith)
  concat_from (suc fuel) size [] h s = refl
  concat_from (suc fuel) size (x ∷ xs) h s =
      ap (λ rest. take size (x ∷ xs) ++ rest)
        (concat_from fuel size (drop size (x ∷ xs)) (drop_shorter fuel size x xs h s) s)
      ∙ take-append-drop size (x ∷ xs)

  pub concat-chunks : (size : ℕ) (xs : List A) → 1 ≤ size → concat (chunks size xs) ≡ xs
  unfolding chunks
  concat-chunks size xs s = concat_from (length xs) size xs (omega arith) s

  -- A chunk is not empty and not longer than `size`.
  abbrev pub IsChunk : ℕ → List A → Type 0
  IsChunk size piece = (1 ≤ length piece) × (length piece ≤ size)

  All-chunks_from :
      (fuel size : ℕ) (xs : List A) → 1 ≤ size → All (IsChunk size) (chunks_from fuel size xs)
  All-chunks_from zero size xs s = tt
  All-chunks_from (suc fuel) size [] s = tt
  All-chunks_from (suc fuel) size (x ∷ xs) s = (
    (omega (arith, length-take size (x ∷ xs)), omega (arith, length-take size (x ∷ xs))),
    All-chunks_from fuel size (drop size (x ∷ xs)) s,
  )

  pub All-chunks : (size : ℕ) (xs : List A) → 1 ≤ size → All (IsChunk size) (chunks size xs)
  unfolding chunks
  All-chunks size xs s = All-chunks_from (length xs) size xs s

  chunks_fuel :
      (n m size : ℕ) (xs : List A)
      → 1 ≤ size
      → length xs ≤ n
      → length xs ≤ m
      → chunks_from n size xs ≡ chunks_from m size xs
  chunks_fuel zero zero size xs s h k = refl
  chunks_fuel zero (suc m) size [] s h k = refl
  chunks_fuel zero (suc m) size (x ∷ xs) s h k = absurd (omega arith)
  chunks_fuel (suc n) zero size [] s h k = refl
  chunks_fuel (suc n) zero size (x ∷ xs) s h k = absurd (omega arith)
  chunks_fuel (suc n) (suc m) size [] s h k = refl
  chunks_fuel (suc n) (suc m) size (x ∷ xs) s h k = ap (◌∷◌ (take size (x ∷ xs))) (
      chunks_fuel n m size (drop size (x ∷ xs)) s (drop_shorter n size x xs h s)
        (drop_shorter m size x xs k s))

  take-length : (xs ys : List A) → take (length xs) (xs ++ ys) ≡ xs
  take-length [] ys = refl
  take-length (x ∷ xs) ys = ap (◌∷◌ x) (take-length xs ys)

  drop-length : (xs ys : List A) → drop (length xs) (xs ++ ys) ≡ ys
  drop-length [] ys = refl
  drop-length (x ∷ xs) ys = drop-length xs ys

  -- A list whose first chunk is known, and one that fills no chunk.
  pub chunks-append :
      (xs ys : List A) → 1 ≤ length xs → chunks (length xs) (xs ++ ys) ≡ xs ∷ chunks (length xs) ys
  unfolding chunks
  chunks-append [] ys h = absurd (omega arith)
  chunks-append (x ∷ xs) ys h =
      rw (take-length xs ys, drop-length xs ys)
        (ap (◌∷◌ (x ∷ xs)) (
          chunks_fuel (length (xs ++ ys)) (length ys) (suc (length xs)) ys h
            (omega (arith, length-append xs ys)) (omega arith)))

  take_more : (n : ℕ) (xs : List A) → length xs ≤ n → take n xs ≡ xs
  take_more zero [] h = refl
  take_more zero (x ∷ xs) h = absurd (omega arith)
  take_more (suc n) [] h = refl
  take_more (suc n) (x ∷ xs) h = ap (◌∷◌ x) (take_more n xs (omega arith))

  drop_more : (n : ℕ) (xs : List A) → length xs ≤ n → drop n xs ≡ []
  drop_more zero [] h = refl
  drop_more zero (x ∷ xs) h = absurd (omega arith)
  drop_more (suc n) [] h = refl
  drop_more (suc n) (x ∷ xs) h = drop_more n xs (omega arith)

  from_empty : (n size : ℕ) → chunks_from n size [] ≡ []
  from_empty zero size = refl
  from_empty (suc n) size = refl

  pub chunks_one :
      (size : ℕ) (x : A) (xs : List A)
      → length (x ∷ xs) ≤ size
      → chunks size (x ∷ xs) ≡ (x ∷ xs) ∷ []
  unfolding chunks
  chunks_one size x xs h =
      rw (take_more size (x ∷ xs) h, drop_more size (x ∷ xs) h, from_empty) refl

  pub chunks_nil : (size : ℕ) → chunks size [] ≡ []
  unfolding chunks
  chunks_nil size = refl
