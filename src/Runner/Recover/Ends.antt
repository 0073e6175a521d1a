-- ===== src/Runner/Recover/Ends.antt =====
-- The recovery of a plan whose planner is gone comes to an end: `_recover_plan` and
-- `resume_execution` of reflowfy/reflow_manager/pipeline_runner.py.
use reflowfy.Prelude.{
  ℕ, zero, suc, ◌+◌, ◌≤◌, ◌<◌, String, Bool, true, false, Option, some, if◌then◌else◌, leb, le→leb,
  ◌==◌, nat_eq, ◌≡◌, ◌∙◌, sym, refl, arith, inl, inr, Bool-cases,
}
use mathlib.Core.Path.{subst}
use reflowfy.Prelude.Keyed.{IsKeyed, find, count_keyed, at_key, find-update_self, update-IsKeyed}
use reflowfy.Executions.{
  Execution, ExecutionState, execution_state_eq, key, is_terminal, get_execution, claim_driver,
  is_false, may_drive, take_lease,
}
use reflowfy.Executions
use reflowfy.Runner.{World}
use reflowfy.Runner.Recover.{
  Recovered, Recovery, Resumed, is_live, take_over, fail_plan, recover_plan, resume_execution,
}
use reflowfy.Runner.Recover.Whole.{state_at, IsWhole, recover-IsWhole}

one_row : (b : Bool) → ◌==◌ {A = ℕ} (if b then 1 else 0) 1 ≡ b
one_row b = ground arith

-- The statement of claim_driver takes the row exactly when the row may be driven.
claim_driver-may_drive :
    (now lease : ℕ) (eid d : String) (e : Execution) (t : Executions.Table)
    → IsKeyed key t
    → find key eid t ≡ some e
    → (claim_driver now eid d lease t).0 ≡ may_drive now lease d e
unfolding claim_driver
claim_driver-may_drive now lease eid d e t k h =
    rw (count_keyed key eid (may_drive now lease d) t k, h) (one_row (may_drive now lease d e))

round_zero : (round : ℕ) → round + zero ≡ round
round_zero round = omega arith

from_zero : (n : ℕ) → n ≡ 0 + n
from_zero n = omega arith

round_suc : (round n : ℕ) → round + suc n ≡ suc round + n
round_suc round n = omega arith

live_not_terminal : (s : ExecutionState) → is_live s ≡ true → is_terminal s ≡ false
live_not_terminal ExecutionState.pending h = refl
live_not_terminal ExecutionState.running h = refl
live_not_terminal ExecutionState.paused h = refl
live_not_terminal ExecutionState.completed h = absurd (ground arith)
live_not_terminal ExecutionState.failed h = absurd (ground arith)
live_not_terminal ExecutionState.cancelled h = absurd (ground arith)

module _ (r : Recovery) (eid : String) (e : Execution) where
  -- The execution is there in its row of before.
  abbrev pub Stays : Executions.Table → Type 0
  Stays t = IsKeyed key t × (find key eid t ≡ some e)

  -- The rest of the world leaves the row of the execution alone.
  abbrev pub IsLeft : Type 0
  IsLeft = (k : ℕ) (w : World) → Stays w.executions → Stays (r.env k w).executions

  -- The plan can be given up at a time: it is old enough, and nobody's lease on it is fresh.
  abbrev pub IsAbandoned : ℕ → Type 0
  IsAbandoned now = (e.created_at + r.lease ≤ now) × (may_drive now r.lease r.recovery_id e ≡ true)

  take_over-claims :
      (now : ℕ) (t : Executions.Table)
      → IsAbandoned now
      → Stays t
      → (take_over r eid now e t).0 ≡ true
  unfolding take_over
  take_over-claims now t a s =
      rw (le→leb (e.created_at + r.lease) now (a.0))
        (claim_driver-may_drive now r.lease eid r.recovery_id e t s.0 s.1 ∙ a.1)

  take_over-Stays :
      (now : ℕ) (t : Executions.Table)
      → (take_over r eid now e t).0 ≡ false
      → Stays t
      → Stays (take_over r eid now e t).1
  unfolding take_over claim_driver
  take_over-Stays now t c s =
      let q = may_drive now r.lease r.recovery_id in
      let f = take_lease now r.recovery_id in
      elim (Bool-cases (leb (e.created_at + r.lease) now)) [
        | inr l ↦ rw l s
        | inl l ↦
            let unclaimed : (claim_driver now eid r.recovery_id r.lease t).0 ≡ false = rw l at c in
            let no : q e ≡ false =
              sym (claim_driver-may_drive now r.lease eid r.recovery_id e t s.0 s.1) ∙ unclaimed in
            rw l (
              update-IsKeyed key (at_key key eid q) f (λ x. refl) t s.0,
              find-update_self key q f (λ x. refl) eid t ∙ rw (s.1) (rw no refl),
            )
      ]

  recover_plan-fails :
      IsLeft
      → is_live e.state ≡ true
      → is_false e.plan_complete ≡ true
      → (n fuel round : ℕ) → n < fuel
      → IsAbandoned (r.clock (round + n))
      → (w : World) → Stays w.executions
      → (u : World) × (recover_plan r eid fuel round w ≡ Recovered.failed u)
  unfolding recover_plan
  recover_plan-fails left live missing n zero round enough a w s = absurd (omega arith)
  recover_plan-fails left live missing zero (suc fuel) round enough a w s =
      let now_due : IsAbandoned (r.clock round) =
        subst (λ (k : ℕ). IsAbandoned (r.clock k)) (round_zero round) a in
      let c = take_over-claims (r.clock round) w.executions now_due s in
      let v : World = record w {
        executions = (take_over r eid (r.clock round) e w.executions).1;
      } in
      (fail_plan r eid (r.clock round) v, simp (s.1, live, missing, c, recover_plan) refl)
  recover_plan-fails left live missing (suc n) (suc fuel) round enough a w s =
      let (claimed, executions) = take_over r eid (r.clock round) e w.executions in
      let v : World = record w { executions = executions } in
      elim (Bool-cases claimed) [
        | inl c ↦
            (fail_plan r eid (r.clock round) v, simp (s.1, live, missing, c, recover_plan) refl)
        | inr c ↦
            let later : IsAbandoned (r.clock (suc round + n)) =
              subst (λ (k : ℕ). IsAbandoned (r.clock k)) (round_suc round n) a in
            let (u, gives_up) =
              recover_plan-fails left live missing n fuel (suc round) (omega arith) later
                (r.env round v) (left round v (take_over-Stays (r.clock round) w.executions c s)) in
            (u, simp (s.1, live, missing, c, recover_plan) gives_up)
      ]

  -- A resumption of an execution that is pending or running with a plan that is not complete fails the
  -- execution, if the plan can be given up in some round: it is then old enough and no driver's lease
  -- on it is fresh, and the rest of the world has left the row alone. Enough fuel is one more than the
  -- number of that round.
  pub resume_execution-gives_up :
      IsLeft
      → is_live e.state ≡ true
      → is_false e.plan_complete ≡ true
      → (n fuel : ℕ) → n < fuel
      → IsAbandoned (r.clock n)
      → (now : ℕ) (missing_message : String) (local : Bool) (class_rate override : Option ℕ)
        (w : World)
      → Stays w.executions
      → (u : World) × (resume_execution r eid fuel now missing_message local
            (some class_rate)
            override
            w
          ≡ Resumed.abandoned (Recovered.failed u))
        × (state_at eid u.executions ≡ some ExecutionState.failed)
  unfolding resume_execution
  resume_execution-gives_up left live missing n fuel enough a now text local class_rate override w
        s =
      let (u, gives_up) =
        recover_plan-fails left live missing n fuel 0 enough
          (subst (λ (k : ℕ). IsAbandoned (r.clock k)) (from_zero n) a) w s in
      let ends : resume_execution r eid fuel now text local (some class_rate) override w
          ≡ Resumed.abandoned (Recovered.failed u) =
        simp (s.1, live_not_terminal e.state live, missing, gives_up, resume_execution) refl in
      (u, ends, subst (IsWhole r eid) gives_up (recover-IsWhole r eid fuel 0 w))
