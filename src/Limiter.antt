-- ===== src/Limiter.antt =====
-- The token bucket of reflowfy/reflow_manager/rate_limiter.py over the table of class
-- RateLimitState (reflowfy/reflow_manager/models.py). Times are microseconds and rates whole jobs
-- per minute. Tokens are counted in units of 1/60,000,000, so that one microsecond at one job per
-- minute earns one unit and the refill, which the source computes in floats, is exact here.
pub mod Rows
pub mod Bound
pub mod Acquire
mod Examples
use reflowfy.Prelude.{
  ℕ, ◌+◌, ◌*◌, String, Bool, true, false, Option, none, some, List, [], ◌∷◌, ◌++◌, max,
  if◌then◌else◌, ◌==◌, nat_eq, string_eq, ◌/◌, leb, min, ◌-◌, zero, suc,
}
use reflowfy.Prelude.Int.{ℤ, pos, sub_ℕ, ◌+ℤ◌, ◌-ℤ◌, scale, min_ℤ, leb_ℤ}
use reflowfy.Prelude.Sql.{update}
use reflowfy.Prelude.Keyed.{find, at_key}

-- One token.
abbrev pub token : ℕ
token = 60000000

-- `refill_rate` is the rate per minute: the row of the source holds a sixtieth of it.
pub record RateLimitState : Type 0 where
  pub pipeline_name : String
  pub tokens : ℤ
  pub max_tokens : ℕ
  pub refill_rate : ℕ
  pub last_update : ℕ

abbrev pub Table : Type 0
Table = List RateLimitState

abbrev pub key : RateLimitState → String
key s = s.pipeline_name

abbrev pub of_name : String → RateLimitState → Bool
of_name name = at_key key name (λ _. true)

-- max(1.0, refill_rate), where the refill rate is a sixtieth of `rate` a second.
abbrev pub bucket_size : ℕ → ℕ
bucket_size rate = max token (rate * 1000000)

abbrev pub new_state : ℕ → String → ℕ → RateLimitState
new_state now name rate = record {
  pipeline_name = name;
  tokens = pos token;
  max_tokens = bucket_size rate;
  refill_rate = rate;
  last_update = now;
}

abbrev pub with_rate : ℕ → RateLimitState → RateLimitState
with_rate rate s =
    if s.refill_rate == rate
    then s
    else record s { refill_rate = rate; max_tokens = bucket_size rate }

-- The row, created or given the new rate, and the table.
unfoldable pub get_or_create_state : ℕ → String → ℕ → Table → RateLimitState × Table
get_or_create_state now name rate t = elim (find key name t) [
  | none ↦ (new_state now name rate, t ++ new_state now name rate ∷ [])
  | some s ↦ (with_rate rate s, update (of_name name) (with_rate rate) t)
]

-- The tokens after a refill: the time since the last update may be negative.
unfoldable pub refilled : ℕ → RateLimitState → ℤ
refilled now s =
    min_ℤ (s.tokens +ℤ scale (sub_ℕ now s.last_update) s.refill_rate) (pos s.max_tokens)

unfoldable pub refill_tokens : ℕ → RateLimitState → RateLimitState
refill_tokens now s = record s { tokens = refilled now s; last_update = now }

-- `born` is the clock where a row is created, `now` where the tokens are counted.
unfoldable pub can_dispatch : ℕ → ℕ → String → ℕ → ℕ → Table → Bool × Table
can_dispatch born now name count rate t =
    let (s, t') = get_or_create_state born name rate t in
    (
      leb_ℤ (pos (count * token)) (refill_tokens now s).tokens,
      update (of_name name) (refill_tokens now) t',
    )

-- Under the row's lock: spend if there is enough, and leave the row as it is if not.
unfoldable pub consume : ℕ → ℕ → RateLimitState → Bool × RateLimitState
consume now count s =
    let new_tokens = refilled now s in
    if leb_ℤ (pos (count * token)) new_tokens
    then (true, record s { tokens = new_tokens -ℤ pos (count * token); last_update = now })
    else (false, s)

unfoldable pub consume_tokens : ℕ → ℕ → String → ℕ → ℕ → Table → Bool × Table
consume_tokens born now name count rate t =
    let (s, t') = get_or_create_state born name rate t in
    ((consume now count s).0, update (of_name name) (λ r. (consume now count r).1) t')

-- ZeroDivisionError at a rate of 0; `out_of_fuel` is the model's own.
pub data Acquired : Type 0 where
  token_acquired timed_out zero_division out_of_fuel : Acquired

-- The loop of acquire_token. `sleep now d` is the clock after a sleep of `d` that starts at `now`.
unfoldable pub acquire_loop :
    (ℕ → ℕ → ℕ) → ℕ → ℕ → String → ℕ → ℕ → ℕ → Table → Acquired × ℕ × Table
acquire_loop sleep zero start name rate max_wait now t = (Acquired.out_of_fuel, now, t)
acquire_loop sleep (suc fuel) start name rate max_wait now t =
    let (got, t') = consume_tokens now now name 1 rate t in
    let elapsed = now - start in
    let again =
      acquire_loop sleep fuel start name rate max_wait
        (sleep now (min (token / rate) (max_wait - elapsed))) t' in
    if got
    then (Acquired.token_acquired, now, t')
    else if leb max_wait elapsed
    then (Acquired.timed_out, now, t')
    else again

unfoldable pub acquire_token : (ℕ → ℕ → ℕ) → ℕ → ℕ → String → ℕ → ℕ → Table → Acquired × ℕ × Table
unfolding acquire_loop
acquire_token sleep fuel now name rate max_wait t =
    if rate == 0
    then (Acquired.zero_division, now, t)
    else acquire_loop sleep fuel now name rate max_wait now t
