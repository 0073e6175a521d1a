-- ===== src/Dedup/Purge.antt =====
-- The purge in rounds: `_purge_in_chunks` of reflowfy/reflow_manager/content_dedup_scheduler.py.
use reflowfy.Prelude.{
  ℕ, zero, suc, ◌-◌, ◌≤◌, ◌<◌, min, Bool, false, some, List, [], ◌∷◌, length, take, length-take,
  ltb, ltb→lt, ◌≡◌, refl, ap, ◌∙◌, Bool-cases, inl, inr, arith,
}
use reflowfy.Prelude.Sql.{select, delete, count, length-select}
use reflowfy.Dedup.{delete_first, purge_in_chunks}

full_round : (n chunk total : ℕ) → ltb n chunk ≡ false → n ≡ min chunk total → chunk ≤ total
full_round n chunk total h e = ground arith

module _ {ℓ} {A : Type ℓ} (p : A → Bool) where
  -- A round leaves the rest of the expired rows, and the others in their places.
  count-round : (n : ℕ) (t : List A) → count p (delete_first p n t) ≡ count p t - n
  unfolding delete_first count
  count-round zero t = omega arith
  count-round (suc n) [] = omega arith
  count-round (suc n) (x ∷ t) = elim (Bool-cases (p x)) [
    | inl h ↦ rw (h) (omega (arith, count-round n t))
    | inr h ↦ rw (h, h) (omega (arith, count-round (suc n) t))
  ]

  delete-round : (n : ℕ) (t : List A) → delete p (delete_first p n t) ≡ delete p t
  unfolding delete_first delete
  delete-round zero t = refl
  delete-round (suc n) [] = refl
  delete-round (suc n) (x ∷ t) = elim (Bool-cases (p x)) [
    | inl h ↦ rw h (delete-round n t)
    | inr h ↦ rw (h, h) (ap (◌∷◌ x) (delete-round (suc n) t))
  ]

  -- A round that is not full leaves no expired row.
  round_last : (n : ℕ) (t : List A) → count p t ≤ n → delete_first p n t ≡ delete p t
  unfolding delete_first delete count
  round_last zero [] h = refl
  round_last (suc n) [] h = refl
  round_last zero (x ∷ t) h = elim (Bool-cases (p x)) [
    | inl e ↦ absurd (omega (arith, rw e at h))
    | inr e ↦ rw e (ap (◌∷◌ x) (round_last zero t (omega (arith, rw e at h))))
  ]
  round_last (suc n) (x ∷ t) h = elim (Bool-cases (p x)) [
    | inl e ↦ rw e (round_last n t (omega (arith, rw e at h)))
    | inr e ↦ rw e (ap (◌∷◌ x) (round_last (suc n) t (omega (arith, rw e at h))))
  ]

  -- A purge whose rounds delete at least one row ends: it deletes all the expired rows and returns
  -- their number. Fuel for one round more than there are expired rows is enough.
  pub purge_in_chunks_all :
      (fuel chunk : ℕ) (t : List A)
      → 1 ≤ chunk
      → count p t < fuel
      → purge_in_chunks fuel p chunk t ≡ some (count p t, delete p t)
  unfolding purge_in_chunks
  purge_in_chunks_all zero chunk t c f = absurd (omega arith)
  purge_in_chunks_all (suc fuel) chunk t c f =
      let deleted : length (take chunk (select p t)) ≡ min chunk (count p t) =
        length-take chunk (select p t) ∙ ap (min chunk) (length-select p t) in
      elim (Bool-cases (ltb (length (take chunk (select p t))) chunk)) [
        | inl h ↦ rw (h) (
            let small : count p t < chunk =
              omega (arith, ltb→lt (length (take chunk (select p t))) chunk h, deleted) in
            rw (round_last chunk t (omega arith))
              (ap (λ n. some (n, delete p t)) (omega (arith, deleted))))
        | inr h ↦ rw (h) (
            let full : chunk ≤ count p t =
              full_round (length (take chunk (select p t))) chunk (count p t) h deleted in
            let rest : count p (delete_first p chunk t) ≡ count p t - chunk = count-round chunk t in
            rw (purge_in_chunks_all fuel chunk (delete_first p chunk t) c (omega arith))
              (rw (delete-round chunk t) (ap (λ n. some (n, delete p t)) (omega arith))))
      ]
