-- ===== src/Transform/Skips.antt =====
-- The reasons for which a step has skipped records: `count_skip_reason` of
-- reflowfy/transformations/base.py. A dict of counts is the list of its entries.
pub mod Bounds
use reflowfy.Prelude.{
  ℕ, zero, suc, ◌+◌, String, Bool, true, false, not, ◌&&◌, List, [], ◌∷◌, if◌then◌else◌, leb,
  length, ◌==◌, string_eq,
}
use reflowfy.Prelude.Text.{first_characters}

abbrev pub Reasons : Type 0
Reasons = List (String × ℕ)

abbrev pub max_skip_reasons : ℕ
max_skip_reasons = 20

abbrev pub max_skip_reason_length : ℕ
max_skip_reason_length = 200

abbrev pub other_skip_reason : String
other_skip_reason = "(other reasons)"

abbrev pub has : String → Reasons → Bool
has reason [] = false
has reason ((k, n) ∷ rest) = if k == reason then true else has reason rest

-- `reasons[reason] = reasons.get(reason, 0) + times`
unfoldable pub add : String → ℕ → Reasons → Reasons
add reason times [] = (reason, times) ∷ []
add reason times ((k, n) ∷ rest) =
    let added = add reason times rest in
    if k == reason then (k, n + times) ∷ rest else (k, n) ∷ added

unfoldable pub or_no_reason : String → String
or_no_reason reason = if reason == "" then "(no reason)" else reason

unfoldable pub count_skip_reason : Reasons → String → ℕ → Reasons
unfolding first_characters or_no_reason add
count_skip_reason reasons reason times =
    let reason = or_no_reason (first_characters max_skip_reason_length reason) in
    if not (has reason reasons) && leb max_skip_reasons (length reasons)
    then add other_skip_reason times reasons
    else add reason times reasons
