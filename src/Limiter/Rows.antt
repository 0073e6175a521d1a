-- ===== src/Limiter/Rows.antt =====
-- What the operations of Limiter do to the row of a pipeline, and to the rows of the others.
use mathlib.Core.Option
use reflowfy.Prelude.{
  ℕ, String, true, Option, none, some, ◌≡◌, ◌≢◌, refl, sym, ◌∙◌, ap, arith, string_eq, Option-cases,
  inl, inr,
}
use reflowfy.Prelude.Keyed.{find, find-update_self, find-update_ne, find-append_ne, find-append_new}
use reflowfy.Limiter.{
  RateLimitState, Table, key, consume, consume_tokens, get_or_create_state, with_rate, new_state,
  refill_tokens, can_dispatch,
}

-- The row that an operation works on: the stored one at the rate asked for, or a new one.
abbrev pub current : ℕ → String → ℕ → Option RateLimitState → RateLimitState
current born name rate none = new_state born name rate
current born name rate (some s) = with_rate rate s

key-with_rate : (rate : ℕ) (s : RateLimitState) → key (with_rate rate s) ≡ key s
key-with_rate rate s = ground arith

key-consume : (now count : ℕ) (s : RateLimitState) → key (consume now count s).1 ≡ key s
unfolding consume
key-consume now count s = ground arith

module _ (born : ℕ) (name : String) (rate : ℕ) (t : Table) where
  pub get_or_create_row :
      ((get_or_create_state born name rate t).0 ≡ current born name rate (find key name t))
      × (find key name (get_or_create_state born name rate t).1
          ≡ some (current born name rate (find key name t)))
  unfolding get_or_create_state
  get_or_create_row = elim (Option-cases (find key name t)) [
    | inl h ↦ rw (h, get_or_create_state) (refl, find-append_new key t (new_state born name rate) h)
    | inr (s, h) ↦
        rw (h, get_or_create_state)
          (
            refl,
            find-update_self key (λ _. true) (with_rate rate) (key-with_rate rate) name t
                ∙ ap (Option.map (with_rate rate)) h,
          )
  ]

  get_or_create_frame :
      (i : String) → i ≢ name → find key i (get_or_create_state born name rate t).1 ≡ find key i t
  unfolding get_or_create_state
  get_or_create_frame i n = elim (Option-cases (find key name t)) [
    | inl h ↦
        rw (h, get_or_create_state)
          (find-append_ne key i t (new_state born name rate) (λ e. n (sym e)))
    | inr (s, h) ↦
        rw (h, get_or_create_state)
          (find-update_ne key (λ _. true) (with_rate rate) (key-with_rate rate) name i t n)
  ]

  module _ (now count : ℕ) where
    -- The answer and the row of the pipeline.
    pub consume_tokens_row :
        let s = current born name rate (find key name t) in
        ((consume_tokens born now name count rate t).0 ≡ (consume now count s).0)
        × (find key name (consume_tokens born now name count rate t).1
            ≡ some (consume now count s).1)
    unfolding consume_tokens
    consume_tokens_row = (
      ap (λ (s : RateLimitState). (consume now count s).0) get_or_create_row.0,
      find-update_self key (λ _. true) (λ r. (consume now count r).1) (key-consume now count) name
            (get_or_create_state born name rate t).1
          ∙ ap (Option.map (λ r. (consume now count r).1)) get_or_create_row.1,
    )

    pub consume_tokens_frame :
        (i : String)
        → i ≢ name
        → find key i (consume_tokens born now name count rate t).1 ≡ find key i t
    unfolding consume_tokens
    consume_tokens_frame i n =
        find-update_ne key (λ _. true) (λ r. (consume now count r).1) (key-consume now count) name i
          (get_or_create_state born name rate t).1 n
        ∙ get_or_create_frame i n

    pub can_dispatch_row :
        find key name (can_dispatch born now name count rate t).1
        ≡ some (refill_tokens now (current born name rate (find key name t)))
    unfolding can_dispatch refill_tokens
    can_dispatch_row =
        find-update_self key (λ _. true) (refill_tokens now) (λ r. refl) name
          (get_or_create_state born name rate t).1
        ∙ ap (Option.map (refill_tokens now)) get_or_create_row.1
