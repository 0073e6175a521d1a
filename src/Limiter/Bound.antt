-- ===== src/Limiter/Bound.antt =====
-- How many tokens a pipeline can get: consume_tokens of reflowfy/reflow_manager/rate_limiter.py.
use reflowfy.Prelude.{
  ℕ, ◌+◌, ◌*◌, ◌≤◌, String, Bool, true, false, some, List, [], ◌∷◌, ◌≡◌, sym, ◌∙◌, ap, arith, All,
  if◌then◌else◌, ◌==◌, string_eq, ◌&&◌, ◌⊎◌, Bool-cases, inl, inr, eq_of_==, ne_of_==,
}
use reflowfy.Prelude.Int.{
  pos, sub_ℕ, ◌+ℤ◌, scale, leb_ℤ, pos_part, neg_part, scale_parts, ◌≤ℤ◌, +ℤ_parts, -ℤ_parts,
  min_ℤ-le_left, min_ℤ-le_right,
}
use reflowfy.Prelude.Keyed.{find}
use reflowfy.Limiter.Rows.{current, consume_tokens_row, consume_tokens_frame}
use reflowfy.Limiter.{
  RateLimitState, Table, key, token, refilled, consume, consume_tokens, with_rate,
}

sub_parts : (now last : ℕ) → pos_part (sub_ℕ now last) + last ≡ neg_part (sub_ℕ now last) + now
sub_parts now last = ground arith

earned_parts :
    (now last rate : ℕ)
    → pos_part (scale (sub_ℕ now last) rate) + last * rate
      ≡ neg_part (scale (sub_ℕ now last) rate) + now * rate
earned_parts now last rate =
    omega (arith, scale_parts (sub_ℕ now last) rate, ap (λ k. k * rate) (sub_parts now last))

-- The tokens that a refill leaves are at most what was there and what was earned since.
refilled_le :
    (now : ℕ) (s : RateLimitState)
    → pos_part (refilled now s) + neg_part s.tokens + s.last_update * s.refill_rate
      ≤ neg_part (refilled now s) + pos_part s.tokens + now * s.refill_rate
unfolding refilled
refilled_le now s =
    let earned = scale (sub_ℕ now s.last_update) s.refill_rate in
    omega (
      arith,
      earned_parts now s.last_update s.refill_rate,
      +ℤ_parts s.tokens earned,
      min_ℤ-le_left (s.tokens +ℤ earned) (pos s.max_tokens),
    )

refilled_max : (now : ℕ) (s : RateLimitState) → refilled now s ≤ℤ pos s.max_tokens
unfolding refilled
refilled_max now s = min_ℤ-le_right _ _

-- A row that the bucket of the source can be in: no debt, and not more than the bucket holds.
pub record IsSound (s : RateLimitState) : Type 0 where
  pub no_debt : neg_part s.tokens ≡ 0
  pub fits : pos_part s.tokens ≤ s.max_tokens

spent_le :
    (now count : ℕ) (s : RateLimitState)
    → (consume now count s).0 ≡ true
    → let s' = (consume now count s).1 in
      (neg_part s'.tokens ≡ 0)
      × (pos_part s'.tokens ≤ s.max_tokens)
      × (s'.last_update ≡ now)
      × (s'.refill_rate ≡ s.refill_rate)
      × (s'.max_tokens ≡ s.max_tokens)
      × (pos_part s'.tokens + neg_part s.tokens + count * token + s.last_update * s.refill_rate
          ≤ pos_part s.tokens + now * s.refill_rate)
unfolding consume
spent_le now count s h = elim (Bool-cases (leb_ℤ (pos (count * token)) (refilled now s))) [
  | inl e ↦ rw e (
      ground (
        arith,
        e,
        refilled_le now s,
        refilled_max now s,
        -ℤ_parts (refilled now s) (pos (count * token)),
      ))
  | inr e ↦ cc (rw e at h)
]

-- A call of consume_tokens, with the clocks that it reads and its effective rate.
pub record Call : Type 0 where
  pub born : ℕ
  pub now : ℕ
  pub pipeline : String
  pub count : ℕ
  pub rate : ℕ

abbrev pub make : Call → Table → Bool × Table
make c t = consume_tokens c.born c.now c.pipeline c.count c.rate t

-- The tokens that the calls, made one after another, get for one pipeline.
unfoldable pub granted : String → List Call → Table → ℕ
granted name [] t = 0
granted name (c ∷ cs) t =
    (if c.pipeline == name && (make c t).0 then c.count else 0) + granted name cs (make c t).1

-- A call before a time, with the pipeline's own rate if it is on the pipeline.
abbrev pub IsRegular : String → ℕ → ℕ → Call → Type 0
IsRegular name rate until c = (c.now ≤ until) × ((c.pipeline == name ≡ false) ⊎ (c.rate ≡ rate))

with_rate_same : (rate : ℕ) (s : RateLimitState) → s.refill_rate ≡ rate → with_rate rate s ≡ s
with_rate_same rate s h = ground arith

refused_same :
    (now count : ℕ) (s : RateLimitState)
    → (consume now count s).0 ≡ false
    → (consume now count s).1 ≡ s
unfolding consume
refused_same now count s h = ground arith

current_same :
    (c : Call) (t : Table) (s : RateLimitState)
    → find key c.pipeline t ≡ some s
    → c.rate ≡ s.refill_rate
    → current c.born c.pipeline c.rate (find key c.pipeline t) ≡ s
current_same c t s found rate =
    ap (current c.born c.pipeline c.rate) found ∙ with_rate_same c.rate s (sym rate)

own_row :
    (name : String) (c : Call) (t : Table) (s : RateLimitState)
    → c.pipeline ≡ name
    → find key name t ≡ some s
    → c.rate ≡ s.refill_rate
    → ((make c t).0 ≡ (consume c.now c.count s).0)
      × (find key name (make c t).1 ≡ some (consume c.now c.count s).1)
own_row name c t s own found rate =
    let here : find key c.pipeline t ≡ some s = rw own found in
    let row = consume_tokens_row c.born c.pipeline c.rate t c.now c.count in
    let same = current_same c t s here rate in
    (
      row.0 ∙ ap (λ (r : RateLimitState). (consume c.now c.count r).0) same,
      rw (← own) (row.1 ∙ ap (λ (r : RateLimitState). some (consume c.now c.count r).1) same),
    )

regular_rate :
    (name : String) (rate until : ℕ) (c : Call)
    → IsRegular name rate until c
    → (c.pipeline == name) ≡ true
    → c.rate ≡ rate
regular_rate name rate until c h own = ground arith

-- Within any time, whatever the calls on this and on other pipelines and whatever the clocks they
-- read in that time, a pipeline gets at most the tokens of its bucket and those that its rate earns
-- in the time: the rate limit. It has a row, free of debt, at the rate that its calls ask for.
pub granted_le :
    (name : String) (until : ℕ) (cs : List Call) (t : Table) (s : RateLimitState)
    → find key name t ≡ some s
    → neg_part s.tokens ≡ 0
    → s.last_update ≤ until
    → All (IsRegular name s.refill_rate until) cs
    → granted name cs t * token + s.last_update * s.refill_rate
      ≤ pos_part s.tokens + until * s.refill_rate
unfolding granted
granted_le name until [] t s found sound early regular = grind arith
granted_le name until (c ∷ cs) t s found sound early regular =
    elim (Bool-cases (c.pipeline == name)) [
      | inr other ↦ rw other (
          omega (
            arith,
            granted_le name until cs (make c t).1 s
                (consume_tokens_frame c.born c.pipeline c.rate t c.now c.count name
                    (λ e. ne_of_== other e)
                  ∙ found)
                sound early regular.1,
          ))
      | inl own ↦
          let (answer, row) =
            own_row name c t s (eq_of_== c.pipeline name own) found
              (regular_rate name s.refill_rate until c regular.0 own) in
          elim (Bool-cases (consume c.now c.count s).0) [
            | inl spent ↦
                let s' = (consume c.now c.count s).1 in
                let after = spent_le c.now c.count s spent in
                let rest =
                  granted_le name until cs (make c t).1 s' row after.0 (rw after.2 (regular.0.0))
                    (rw after.3 regular.1) in
                rw (own, answer, spent) (grind (arith, rest, after.2, after.3, after.5))
            | inr refused ↦
                rw (own, answer, refused)
                  (omega (
                    arith,
                    granted_le name until cs (make c t).1 s
                        (row ∙ ap some (refused_same c.now c.count s refused)) sound early
                        regular.1,
                  ))
          ]
    ]
