-- ===== src/Limiter/Examples.antt =====
-- One pipeline's bucket at 60 jobs a minute, and the theorems of Limiter at it.
use reflowfy.Prelude.{ℕ, ◌+◌, ◌*◌, ◌≤◌, String, some, List, [], ◌∷◌, ◌≡◌, refl, arith, inr}
use reflowfy.Prelude.Keyed.{find}
use reflowfy.Prelude.Sql.{update}
use reflowfy.Prelude.Int.{min_ℤ, ◌+ℤ◌, scale, ◌-ℤ◌}
use reflowfy.Limiter.{
  RateLimitState, Table, key, token, new_state, consume_tokens, acquire_token, get_or_create_state,
  consume, refilled,
}
use reflowfy.Limiter.Bound.{Call, granted, granted_le}
use reflowfy.Limiter.Acquire.{Settles, acquire_token-Settles}

abbrev bucket : RateLimitState
bucket = new_state 0 "p" 60

abbrev table : Table
table = bucket ∷ []

abbrev call : ℕ → String → ℕ → Call
call now name count = record { born = now; now = now; pipeline = name; count = count; rate = 60 }

-- The second call comes too early for a second token; the third is on another pipeline.
abbrev calls : List Call
calls = call 10 "p" 1 ∷ call 20 "p" 1 ∷ call 30 "q" 1 ∷ call 1000010 "p" 1 ∷ []

find-p : find key "p" table ≡ some bucket
unfolding find
find-p = refl

granted-p : granted "p" calls table ≡ 2
unfolding granted consume_tokens get_or_create_state consume refilled find update min_ℤ ◌+ℤ◌ scale
    ◌-ℤ◌
granted-p = refl

granted_le_example : granted "p" calls table * token + 0 * 60 ≤ 60000000 + 1000010 * 60
granted_le_example = granted_le "p" 1000010 calls table bucket find-p refl (omega arith) (
  (omega arith, inr refl),
  ((omega arith, inr refl), ((omega arith, inr refl), ((omega arith, inr refl), tt))),
)

acquire_token-Settles_example :
    let r = acquire_token (λ now d. now + d) 11 5 "p" 60 10 table in Settles 5 10 r.0 r.1
acquire_token-Settles_example =
    acquire_token-Settles (λ now d. now + d) 11 5 "p" 60 10 table (λ at d. omega arith)
      (omega arith) (omega arith) (omega arith)
