-- ===== src/Prelude/Text.antt =====
-- `s[:n]` of a text.
use Prim.Native.Nat.{ℕ, zero, suc, ◌≤◌}
use Prim.Native.String.{String, [], ◌∷◌, count}
use text.Mathlib.TextLemmas.{length-cons}
use native.Mathlib.Omega.{arith}

unfoldable pub first_characters : ℕ → String → String
first_characters zero s = []
first_characters (suc n) [] = []
first_characters (suc n) (c ∷ s) = c ∷ first_characters n s

pub count-first_characters : (n : ℕ) (s : String) → count (first_characters n s) ≤ n
unfolding first_characters
count-first_characters zero s = omega arith
count-first_characters (suc n) [] = omega arith
count-first_characters (suc n) (c ∷ s) =
    omega (arith, length-cons c (first_characters n s), count-first_characters n s)
