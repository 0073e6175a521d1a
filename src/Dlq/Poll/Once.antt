-- ===== src/Dlq/Poll/Once.antt =====
-- A loop of reflowfy/reflow_manager/dlq_scheduler.py over jobs, over groups or over pipelines, seen from
-- a job that is in it once.
use reflowfy.Prelude.{
  ℕ, zero, suc, ◌+◌, String, Bool, true, List, [], ◌∷◌, ◌++◌, map, inl, inr, if◌then◌else◌, ◌==◌,
  nat_eq, string_eq, ◌≡◌, refl, sym, ap, ◌∙◌, arith, Bool-cases, All, ◌⊎◌,
}
use mathlib.Core.Path.{subst}
use mathlib.Core.Bool.{true≢false}
use reflowfy.Prelude.Sql.{select, count}
use reflowfy.Dlq.{DlqJob, Store, has_id, add_to_groups, group_loop}
use reflowfy.Dlq.Poll.View.{View, view}

abbrev pub sum {ℓ} : {A : Type ℓ} → (A → ℕ) → List A → ℕ
sum f [] = 0
sum f (x ∷ xs) = f x + sum f xs

pub sum-map {ℓ κ} :
    {A : Type ℓ} {B : Type κ} (f : B → ℕ) (h : A → B) (xs : List A)
    → sum f (map h xs) ≡ sum (λ x. f (h x)) xs
sum-map f h [] = refl
sum-map f h (x ∷ xs) = ap (◌+◌ (f (h x))) (sum-map f h xs)

one_or_more : (m n : ℕ) → m + n ≡ 1 → ((m ≡ 0) × (n ≡ 1)) ⊎ ((m ≡ 1) × (n ≡ 0))
one_or_more zero n h = inl (refl, omega (arith, h))
one_or_more (suc zero) n h = inr (refl, omega (arith, h))
one_or_more (suc (suc m)) n h = absurd (omega (arith, h))

module _ (i : ℕ) {A : Type 0} (hits : A → ℕ) (step : List A → Store → Store)
    (none_left : (s : Store) → step [] s ≡ s)
    (in_turn : (x : A) (xs : List A) (s : Store) → step (x ∷ xs) s ≡ step xs (step (x ∷ []) s))
    (missed : (x : A) (s : Store) → hits x ≡ 0 → view i (step (x ∷ []) s) ≡ view i s) where
  pub untouched : (xs : List A) (s : Store) → sum hits xs ≡ 0 → view i (step xs s) ≡ view i s
  untouched [] s h = ap (view i) (none_left s)
  untouched (x ∷ xs) s h =
      ap (view i) (in_turn x xs s)
      ∙ untouched xs (step (x ∷ []) s) (omega (arith, h))
      ∙ missed x s (omega (arith, h))

  pub once :
      (P : A → Type 0) (Out : A → View → Type 0) (before : View)
      → ((x : A) (s : Store)
          → P x
          → hits x ≡ 1
          → view i s ≡ before
          → Out x (view i (step (x ∷ []) s)))
      → (xs : List A) (s : Store) → sum hits xs ≡ 1
      → All P xs
      → view i s ≡ before
      → (x : A) × P x × (hits x ≡ 1) × Out x (view i (step xs s))
  once P Out before hit [] s h all old = absurd (omega (arith, h))
  once P Out before hit (x ∷ xs) s h all old = elim (one_or_more (hits x) (sum hits xs) h) [
    | inr here ↦
        let same : view i (step (x ∷ []) s) ≡ view i (step (x ∷ xs) s) =
          sym (ap (view i) (in_turn x xs s) ∙ untouched xs (step (x ∷ []) s) here.1) in
        (x, all.0, here.0, subst (Out x) same (hit x s all.0 here.0 old))
    | inl later ↦
        let (y, fits, hit_y, out) =
          once P Out before hit xs (step (x ∷ []) s) later.1 all.1 (missed x s later.0 ∙ old) in
        (y, fits, hit_y, subst (λ (t : Store). Out y (view i t)) (sym (in_turn x xs s)) out)
  ]

abbrev pub hit : ℕ → DlqJob → ℕ
hit i j = if j.id == i then 1 else 0

-- Of all jobs, only `k` has the id.
abbrev pub IsOnly : ℕ → DlqJob → DlqJob → Type 0
IsOnly i k x = (x.id == i) ≡ true → x ≡ k

module _ (i : ℕ) where
  pub sum-count : (xs : List DlqJob) → sum (hit i) xs ≡ count (has_id i) xs
  unfolding count
  sum-count [] = refl
  sum-count (x ∷ xs) = ap (◌+◌ (hit i x)) (sum-count xs)

  sum-snoc : (xs : List DlqJob) (x : DlqJob) → sum (hit i) (xs ++ x ∷ []) ≡ sum (hit i) xs + hit i x
  sum-snoc [] x = omega arith
  sum-snoc (y ∷ xs) x = omega (arith, sum-snoc xs x)

  abbrev pub hits_of : String × List DlqJob → ℕ
  hits_of g = sum (hit i) g.1

  sum-add_to_groups :
      (k : String) (x : DlqJob) (gs : List (String × List DlqJob))
      → sum hits_of (add_to_groups k x gs) ≡ sum hits_of gs + hit i x
  unfolding add_to_groups
  sum-add_to_groups k x [] = omega arith
  sum-add_to_groups k x (g ∷ gs) = elim (Bool-cases (g.0 == k)) [
    | inl e ↦ rw e (omega (arith, sum-snoc (g.1) x))
    | inr e ↦ rw e (omega (arith, sum-add_to_groups k x gs))
  ]

  sum-group_loop :
      (key : DlqJob → String) (xs : List DlqJob) (gs : List (String × List DlqJob))
      → sum hits_of (group_loop key xs gs) ≡ sum hits_of gs + sum (hit i) xs
  unfolding group_loop
  sum-group_loop key [] gs = omega arith
  sum-group_loop key (x ∷ xs) gs =
      omega
        (arith, sum-group_loop key xs (add_to_groups (key x) x gs), sum-add_to_groups (key x) x gs)

  pub sum-grouped :
      (key : DlqJob → String) (xs : List DlqJob)
      → sum hits_of (group_loop key xs []) ≡ sum (hit i) xs
  sum-grouped key xs = omega (arith, sum-group_loop key xs [])

  -- A list with the job has the key of its members from it.
  pub key_of_all :
      (key : DlqJob → String) (k : DlqJob) (name : String) (xs : List DlqJob)
      → sum (hit i) xs ≡ 1
      → All (IsOnly i k) xs
      → All (λ x. key x ≡ name) xs
      → key k ≡ name
  key_of_all key k name [] h only all = absurd (omega (arith, h))
  key_of_all key k name (x ∷ xs) h only all = elim (Bool-cases (x.id == i)) [
    | inl e ↦ ap key (sym (only.0 e)) ∙ all.0
    | inr e ↦
        let rest : 0 + sum (hit i) xs ≡ 1 = rw e at h in
        key_of_all key k name xs (omega (arith, rest)) only.1 all.1
  ]

  pub sum-select :
      (p : DlqJob → Bool) (t : List DlqJob)
      → sum (hit i) (select p t) ≡ sum (hit i) (select p (select (has_id i) t))
  unfolding select
  sum-select p [] = refl
  sum-select p (x ∷ t) = ground (arith, sum-select p t)

  pub select-IsOnly :
      (k : DlqJob) (t : List DlqJob) → All (IsOnly i k) (select (has_id i) t) → All (IsOnly i k) t
  unfolding select
  select-IsOnly k [] h = tt
  select-IsOnly k (x ∷ t) h = elim (Bool-cases (x.id == i)) [
    | inl e ↦ let here = rw e at h in (here.0, select-IsOnly k t here.1)
    | inr e ↦ ((λ found. absurd (true≢false (sym found ∙ e))), select-IsOnly k t (rw e at h))
  ]
