-- ===== src/Limiter/Acquire.antt =====
-- Waiting for a token, and asking before spending: acquire_token and can_dispatch of
-- reflowfy/reflow_manager/rate_limiter.py.
use reflowfy.Prelude.{
  ℕ, zero, suc, ◌+◌, ◌-◌, ◌*◌, ◌/◌, ◌≤◌, ◌<◌, String, false, Option, none, some, ◌≡◌, sym, ◌∙◌, ap,
  arith, ◌==◌, nat_eq, leb, min, Bool-cases, inl, inr,
}
use reflowfy.Prelude.Int.{ℤ, pos, sub_ℕ, scale, ◌+ℤ◌, min_ℤ, leb_ℤ}
use reflowfy.Prelude.Keyed.{find}
use reflowfy.Limiter.Rows.{current, consume_tokens_row, can_dispatch_row, get_or_create_row}
use reflowfy.Limiter.{
  RateLimitState, Table, key, token, Acquired, consume_tokens, consume, refilled, refill_tokens,
  can_dispatch, acquire_loop, acquire_token, with_rate,
}

-- How a wait of at most `max_wait` that began at `start` may end at `now`.
abbrev pub Settles : ℕ → ℕ → Acquired → ℕ → Type 0
Settles start max_wait Acquired.token_acquired now = start ≤ now
Settles start max_wait Acquired.timed_out now = start + max_wait ≤ now
Settles start max_wait Acquired.zero_division now = ⊥
Settles start max_wait Acquired.out_of_fuel now = ⊥

pause_pos : (rate left : ℕ) → 0 < rate → rate ≤ token → 0 < left → 0 < min (token / rate) left
pause_pos rate left a b c = grind arith

under_lt : {a b : ℕ} → leb a b ≡ false → b < a
under_lt h = ground arith

module _ (sleep : ℕ → ℕ → ℕ) (start : ℕ) (name : String) (rate max_wait : ℕ)
    (sleeps : (now d : ℕ) → now + d ≤ sleep now d) (pos_rate : 0 < rate) (slow : rate ≤ token) where
  acquire_loop-Settles :
      (fuel now : ℕ) (t : Table)
      → start ≤ now
      → start + max_wait - now < fuel
      → let r = acquire_loop sleep fuel start name rate max_wait now t in
        Settles start max_wait r.0 r.1
  unfolding acquire_loop
  acquire_loop-Settles zero now t late enough = absurd (omega arith)
  acquire_loop-Settles (suc fuel) now t late enough =
      elim (Bool-cases (consume_tokens now now name 1 rate t).0) [
        | inl got ↦ rw got late
        | inr waits ↦ elim (Bool-cases (leb max_wait (now - start))) [
          | inl over ↦ rw (waits, over) (ground arith)
          | inr under ↦
              let pause = min (token / rate) (max_wait - (now - start)) in
              let forward =
                pause_pos rate (max_wait - (now - start)) pos_rate slow (ground arith) in
              rw (waits, under)
                (acquire_loop-Settles fuel (sleep now pause)
                  (consume_tokens now now name 1 rate t).1 (omega (arith, sleeps now pause))
                  (omega (arith, sleeps now pause, forward, under_lt under)))
        ]
      ]

-- With a clock that moves on by at least the time slept, acquire_token ends: it has its token, or
-- it gives up, and then no sooner than `max_wait`. Fuel for more than `max_wait` rounds is enough,
-- at a rate of at least 1 a minute and at most one token a microsecond.
pub acquire_token-Settles :
    (sleep : ℕ → ℕ → ℕ) (fuel now : ℕ) (name : String) (rate max_wait : ℕ) (t : Table)
    → ((at d : ℕ) → at + d ≤ sleep at d)
    → 0 < rate
    → rate ≤ token
    → max_wait < fuel
    → let r = acquire_token sleep fuel now name rate max_wait t in Settles now max_wait r.0 r.1
unfolding acquire_token
acquire_token-Settles sleep fuel now name rate max_wait t sleeps pos_rate slow enough =
    elim (Bool-cases (rate == 0)) [
      | inl z ↦ absurd (ground arith)
      | inr nz ↦ rw nz (
          acquire_loop-Settles sleep now name rate max_wait sleeps pos_rate slow fuel now t
            (omega arith) (omega arith))
    ]

no_time : (now rate : ℕ) → scale (sub_ℕ now now) rate ≡ pos 0
unfolding scale
no_time now rate = ground arith

add_zero : (a : ℤ) → a +ℤ pos 0 ≡ a
unfolding ◌+ℤ◌
add_zero a = ground arith

min_min : (a b : ℤ) → min_ℤ (min_ℤ a b) b ≡ min_ℤ a b
unfolding min_ℤ
min_min a b = ground arith

refill_twice : (now : ℕ) (s : RateLimitState) → refilled now (refill_tokens now s) ≡ refilled now s
refill_twice now s =
    unfold refill_tokens refilled in
    rw (no_time now s.refill_rate, add_zero) (min_min _ (pos s.max_tokens))

consume_answer :
    (now count : ℕ) (s : RateLimitState)
    → (consume now count s).0 ≡ leb_ℤ (pos (count * token)) (refilled now s)
unfolding consume
consume_answer now count s = ground arith

with_rate_idem :
    (rate : ℕ) (s : RateLimitState) → with_rate rate (with_rate rate s) ≡ with_rate rate s
with_rate_idem rate s = ground arith

current_rate :
    (born later : ℕ) (name : String) (rate now : ℕ) (o : Option RateLimitState)
    → current later name rate (some (refill_tokens now (current born name rate o)))
      ≡ refill_tokens now (current born name rate o)
unfolding refill_tokens
current_rate born later name rate now none = ground arith
current_rate born later name rate now (some s) = ground arith

check_answer :
    (born now : ℕ) (name : String) (count rate : ℕ) (t : Table)
    → (can_dispatch born now name count rate t).0
      ≡ leb_ℤ (pos (count * token)) (refilled now (current born name rate (find key name t)))
unfolding can_dispatch refill_tokens
check_answer born now name count rate t =
    ap (λ (s : RateLimitState). leb_ℤ (pos (count * token)) (refilled now s))
      (get_or_create_row born name rate t).0

-- What can_dispatch answers is what consume_tokens then does: at the same time and rate the tokens
-- are spent exactly if the check said so.
pub can_dispatch-consume_tokens :
    (born later now : ℕ) (name : String) (count rate : ℕ) (t : Table)
    → let (allowed, checked) = can_dispatch born now name count rate t in
      (consume_tokens later now name count rate checked).0 ≡ allowed
can_dispatch-consume_tokens born later now name count rate t =
    let checked = (can_dispatch born now name count rate t).1 in
    let s = current born name rate (find key name t) in
    let row =
      ap (current later name rate) (can_dispatch_row born name rate t now count)
      ∙ current_rate born later name rate now (find key name t) in
    (consume_tokens_row later name rate checked now count).0
    ∙ ap (λ (r : RateLimitState). (consume now count r).0) row
    ∙ consume_answer now count (refill_tokens now s)
    ∙ ap (λ (x : ℤ). leb_ℤ (pos (count * token)) x) (refill_twice now s)
    ∙ sym (check_answer born now name count rate t)
