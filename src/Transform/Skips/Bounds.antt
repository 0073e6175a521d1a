-- ===== src/Transform/Skips/Bounds.antt =====
-- The size and the total of the reasons: `count_skip_reason` of reflowfy/transformations/base.py.
use Prim.Native.String.{count}
use reflowfy.Prelude.{
  ℕ, suc, ◌+◌, ◌≤◌, String, true, not, ◌&&◌, ◌||◌, List, [], ◌∷◌, if◌then◌else◌, leb, length, ◌==◌,
  string_eq, ◌≡◌, refl, arith, All, ◌⊎◌, inl, inr, Bool-cases,
}
use reflowfy.Prelude.Text.{first_characters, count-first_characters}
use reflowfy.Transform.Skips.{
  Reasons, max_skip_reason_length, other_skip_reason, has, add, or_no_reason, count_skip_reason,
}

abbrev pub total : Reasons → ℕ
total [] = 0
total ((k, n) ∷ rest) = n + total rest

-- One after another, from no reasons.
abbrev pub count_all : Reasons → List (String × ℕ) → Reasons
count_all reasons [] = reasons
count_all reasons ((reason, times) ∷ skips) =
    count_all (count_skip_reason reasons reason times) skips

total-add :
    (reason : String) (times : ℕ) (r : Reasons) → total (add reason times r) ≡ total r + times
unfolding add
total-add reason times [] = omega arith
total-add reason times ((k, n) ∷ r) = ground (arith, total-add reason times r)

length-add :
    (reason : String) (times : ℕ) (r : Reasons)
    → length (add reason times r) ≡ (if has reason r then length r else suc (length r))
unfolding add
length-add reason times [] = refl
length-add reason times ((k, n) ∷ r) = ground (arith, length-add reason times r)

has-add :
    (i reason : String) (times : ℕ) (r : Reasons)
    → has i (add reason times r) ≡ (reason == i || has i r)
unfolding add
has-add i reason times [] = ground arith
has-add i reason times ((k, n) ∷ r) = ground (
  arith,
  has-add i reason times r,
  string_eq.decides k reason,
  string_eq.decides k i,
  string_eq.decides reason i,
)

abbrev IsShort : String × ℕ → Type 0
IsShort e = count e.0 ≤ max_skip_reason_length

All-add :
    (reason : String) (times : ℕ) (r : Reasons)
    → count reason ≤ max_skip_reason_length
    → All IsShort r
    → All IsShort (add reason times r)
unfolding add
All-add reason times [] h a = (h, tt)
All-add reason times ((k, n) ∷ r) h a = elim (Bool-cases (k == reason)) [
  | inl e ↦ rw e (a.0, a.1)
  | inr e ↦ rw e (a.0, All-add reason times r h a.1)
]

-- At most twenty reasons, or as many and the one for all others.
record IsBounded (r : Reasons) : Type 0 where
  size : (length r ≤ 20) ⊎ ((length r ≤ 21) × (has other_skip_reason r ≡ true))
  short : All IsShort r

reason-short : (reason : String) → count (or_no_reason (first_characters 200 reason)) ≤ 200
unfolding or_no_reason
reason-short reason = elim (Bool-cases (first_characters 200 reason == "")) [
  | inl e ↦ rw e (omega arith)
  | inr e ↦ rw e (count-first_characters 200 reason)
]

count-IsBounded :
    (r : Reasons) (reason : String) (times : ℕ)
    → IsBounded r
    → IsBounded (count_skip_reason r reason times)
unfolding count_skip_reason
count-IsBounded r reason times b =
    let k = or_no_reason (first_characters 200 reason) in
    elim (Bool-cases (not (has k r) && leb 20 (length r))) [
      | inl e ↦
          rw (e, count_skip_reason)
            (record {
              size = ground (
                arith,
                length-add other_skip_reason times r,
                has-add other_skip_reason other_skip_reason times r,
                string_eq.decides other_skip_reason other_skip_reason,
              );
              short = All-add other_skip_reason times r (omega arith) b.short;
            })
      | inr e ↦
          rw (e, count_skip_reason)
            (record {
              size = ground (arith, length-add k times r, has-add other_skip_reason k times r);
              short = All-add k times r (reason-short reason) b.short;
            })
    ]

pub total-count :
    (r : Reasons) (reason : String) (times : ℕ)
    → total (count_skip_reason r reason times) ≡ total r + times
unfolding count_skip_reason
total-count r reason times =
    let k = or_no_reason (first_characters 200 reason) in
    elim (Bool-cases (not (has k r) && leb 20 (length r))) [
      | inl e ↦ rw (e, count_skip_reason) (total-add other_skip_reason times r)
      | inr e ↦ rw (e, count_skip_reason) (total-add k times r)
    ]

all-IsBounded :
    (r : Reasons) (skips : List (String × ℕ)) → IsBounded r → IsBounded (count_all r skips)
all-IsBounded r [] b = b
all-IsBounded r ((reason, times) ∷ skips) b =
    all-IsBounded (count_skip_reason r reason times) skips (count-IsBounded r reason times b)

pub total-all :
    (r : Reasons) (skips : List (String × ℕ)) → total (count_all r skips) ≡ total r + total skips
total-all r [] = omega arith
total-all r ((reason, times) ∷ skips) =
    omega (arith, total-all (count_skip_reason r reason times) skips, total-count r reason times)

-- Whatever reasons are counted, one after another from an empty dict, the dict has at most 21 entries,
-- no key of it is longer than 200 characters, and its counts add up to all that was counted.
pub count_skip_reasons_bounded :
    (skips : List (String × ℕ))
    → let r = count_all [] skips in
      (length r ≤ 21) × All (λ e. count e.0 ≤ max_skip_reason_length) r × (total r ≡ total skips)
count_skip_reasons_bounded skips =
    let b : IsBounded (count_all [] skips) =
      all-IsBounded [] skips (record { size = inl (omega arith); short = tt }) in
    (
      elim b.size [ inl h ↦ omega arith | inr h ↦ omega arith ],
      b.short,
      omega (arith, total-all [] skips),
    )
