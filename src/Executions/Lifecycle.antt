-- ===== src/Executions/Lifecycle.antt =====
-- The states of an execution under the requests of its users: pause_execution, resume_execution and
-- cancel_execution of reflowfy/reflow_manager/execution.py.
use mathlib.Core.Option
use mathlib.Core.Path.{subst}
use reflowfy.Prelude.{
  ℕ, String, Bool, true, Option, none, some, List, [], ◌∷◌, ◌≡◌, ◌≢◌, refl, arith, ◌==◌, string_eq,
  Bool-cases, Option-cases, ne_of_==, inl, inr, eq_of_==, if◌then◌else◌, ◌∙◌, ap,
}
use reflowfy.Prelude.Keyed.{find, find-update_self, find-update_ne}
use reflowfy.Executions.{
  Execution, ExecutionState, Table, key, set_state, is_terminal, update_execution_state,
  pause_execution, resume_execution, cancel_execution, may_pause, may_resume, may_cancel, guarded,
}

pub data Request : Type 0 where
  pause resume cancel : Request

unfoldable pub request : ℕ → String → Request → Table → Option Execution × Table
unfolding pause_execution resume_execution cancel_execution
request now eid Request.pause t = pause_execution now eid t
request now eid Request.resume t = resume_execution now eid t
request now eid Request.cancel t = cancel_execution now eid t

-- The state machine of the documentation: what each request leads to, and `none` where it is refused.
abbrev pub next_state : Request → ExecutionState → Option ExecutionState
next_state Request.pause ExecutionState.pending = some ExecutionState.paused
next_state Request.pause ExecutionState.running = some ExecutionState.paused
next_state Request.resume ExecutionState.paused = some ExecutionState.running
next_state Request.cancel ExecutionState.pending = some ExecutionState.cancelled
next_state Request.cancel ExecutionState.running = some ExecutionState.cancelled
next_state Request.cancel ExecutionState.paused = some ExecutionState.cancelled
next_state _ _ = none

abbrev message : Request → Option String
message Request.cancel = some "Cancelled"
message _ = none

-- The row after a move: its state, the message of a cancel, and the time of its end if it ends.
abbrev ended_at : ℕ → ExecutionState → Option ℕ → Option ℕ
ended_at now ExecutionState.completed old = some now
ended_at now ExecutionState.failed old = some now
ended_at now ExecutionState.cancelled old = some now
ended_at now _ old = old

abbrev told : Option String → Option String → Option String
told none old = old
told (some text) old = some text

abbrev pub moved : ℕ → ExecutionState → Option String → Execution → Execution
moved now s m e = record e {
  state = s;
  error_message = told m e.error_message;
  completed_at = ended_at now s e.completed_at;
}

-- What a request did to its execution: nothing, or the row is moved and returned.
abbrev pub Answered :
    ℕ
    → String
    → Request
    → Execution
    → Table
    → Option Execution × Table
    → Option ExecutionState
    → Type 0
Answered now eid r e t result none = result ≡ (none, t)
Answered now eid r e t result (some s) =
    (result.0 ≡ some (moved now s (message r) e))
    × (find key eid result.1 ≡ some (moved now s (message r) e))

module _ (now : ℕ) (eid : String) (s : ExecutionState) (m : Option String) (t : Table) where
  find-update_state :
      find key eid (update_execution_state now eid s m t).1
      ≡ Option.map (set_state now s m) (find key eid t)
  unfolding update_execution_state
  find-update_state = find-update_self key (λ _. true) (set_state now s m) (λ e. refl) eid t

  update_state-Answered :
      (e : Execution)
      → find key eid t ≡ some e
      → let u = update_execution_state now eid s m t in
        (u.0 ≡ some (set_state now s m e)) × (find key eid u.1 ≡ some (set_state now s m e))
  update_state-Answered e h =
      let found = find-update_state ∙ ap (Option.map (set_state now s m)) h in
      (unfold update_execution_state in found, found)

  update_state_frame :
      (i : String) → i ≢ eid → find key i (update_execution_state now eid s m t).1 ≡ find key i t
  unfolding update_execution_state
  update_state_frame i n = find-update_ne key (λ _. true) (set_state now s m) (λ e. refl) eid i t n

abbrev target : Request → ExecutionState
target Request.pause = ExecutionState.paused
target Request.resume = ExecutionState.running
target Request.cancel = ExecutionState.cancelled

set_state-moved :
    (now : ℕ) (r : Request) (e : Execution)
    → set_state now (target r) (message r) e ≡ moved now (target r) (message r) e
set_state-moved now Request.pause e = refl
set_state-moved now Request.resume e = refl
set_state-moved now Request.cancel e = refl

abbrev allows : Request → ExecutionState → Bool
allows Request.pause = may_pause
allows Request.resume = may_resume
allows Request.cancel = may_cancel

next_state_lem :
    (r : Request) (s : ExecutionState)
    → next_state r s ≡ (if allows r s then some (target r) else none)
next_state_lem r s = ground arith

guarded_lem :
    (allowed : ExecutionState → Bool) (move : Table → Option Execution × Table) (eid : String)
    (t : Table) (e : Execution)
    → find key eid t ≡ some e
    → guarded allowed move eid t ≡ (if allowed e.state then move t else (none, t))
guarded_lem allowed move eid t e h =
    ap
      (λ (o : Option Execution). elim o [
        | none ↦ (none, t)
        | some e ↦ if allowed e.state then move t else (none, t)
      ])
      h

request_lem :
    (now : ℕ) (eid : String) (r : Request) (t : Table) (e : Execution)
    → find key eid t ≡ some e
    → request now eid r t ≡ (
        if allows r e.state
        then update_execution_state now eid (target r) (message r) t
        else (none, t))
unfolding request
request_lem now eid pause t e h =
    guarded_lem (allows Request.pause)
      (update_execution_state now eid (target Request.pause) (message Request.pause)) eid t e h
request_lem now eid resume t e h =
    guarded_lem (allows Request.resume)
      (update_execution_state now eid (target Request.resume) (message Request.resume)) eid t e h
request_lem now eid cancel t e h =
    guarded_lem (allows Request.cancel)
      (update_execution_state now eid (target Request.cancel) (message Request.cancel)) eid t e h

answered :
    (now : ℕ) (eid : String) (r : Request) (t : Table) (e : Execution)
    → find key eid t ≡ some e
    → Answered now eid r e t (request now eid r t) (next_state r e.state)
answered now eid r t e h = elim (Bool-cases (allows r e.state)) [
  | inl a ↦
      rw (next_state_lem r e.state, request_lem now eid r t e h, a)
        (subst
          (λ (x : Execution).
            ((update_execution_state now eid (target r) (message r) t).0 ≡ some x)
            × (find key eid (update_execution_state now eid (target r) (message r) t).1 ≡ some x))
          (set_state-moved now r e) (update_state-Answered now eid (target r) (message r) t e h))
  | inr a ↦ rw (next_state_lem r e.state, request_lem now eid r t e h, a)
]

request_missing :
    (now : ℕ) (eid : String) (r : Request) (t : Table)
    → find key eid t ≡ none
    → request now eid r t ≡ (none, t)
unfolding request
request_missing now eid pause t h = ground arith
request_missing now eid resume t h = ground arith
request_missing now eid cancel t h = ground arith

request_frame :
    (now : ℕ) (eid i : String) (r : Request) (t : Table)
    → i ≢ eid
    → find key i (request now eid r t).1 ≡ find key i t
request_frame now eid i r t n = elim (Option-cases (find key eid t)) [
  | inl h ↦ rw (request_missing now eid r t h)
  | inr (e, h) ↦ elim (Bool-cases (allows r e.state)) [
    | inl a ↦
        rw (request_lem now eid r t e h, a)
          (update_state_frame now eid (target r) (message r) t i n)
    | inr a ↦ rw (request_lem now eid r t e h, a)
  ]
]

-- A pause, a resume or a cancel of an execution does what the state machine says, and touches no
-- other execution: where the machine has no edge the answer is None and nothing changes; else the
-- row is moved, with the time of its end if it ends, and returned.
pub request-Answered :
    (now : ℕ) (eid i : String) (r : Request) (t : Table) (e : Execution)
    → find key eid t ≡ some e
    → i ≢ eid
    → Answered now eid r e t (request now eid r t) (next_state r e.state)
      × (find key i (request now eid r t).1 ≡ find key i t)
request-Answered now eid i r t e h n = (answered now eid r t e h, request_frame now eid i r t n)

settled_refuses : (r : Request) (s : ExecutionState) → is_terminal s ≡ true → next_state r s ≡ none
settled_refuses r s h = ground arith

request_settled :
    (now : ℕ) (eid : String) (r : Request) (t : Table) (e : Execution)
    → find key eid t ≡ some e
    → is_terminal e.state ≡ true
    → request now eid r t ≡ (none, t)
request_settled now eid r t e h s = rw (settled_refuses r e.state s) at (answered now eid r t e h)

pub run_requests : List (ℕ × String × Request) → Table → Table
run_requests [] t = t
run_requests ((now, eid, r) ∷ rs) t = run_requests rs (request now eid r t).1

-- Through any requests, on it and on others, an execution that has completed, failed or been
-- cancelled keeps its row unchanged.
pub run_requests_settled :
    (rs : List (ℕ × String × Request)) (t : Table) (eid : String) (e : Execution)
    → find key eid t ≡ some e
    → is_terminal e.state ≡ true
    → find key eid (run_requests rs t) ≡ some e
unfolding run_requests
run_requests_settled [] t eid e h s = h
run_requests_settled ((now, i, r) ∷ rs) t eid e h s = elim (Bool-cases (i == eid)) [
  | inl q ↦
      run_requests_settled rs (request now i r t).1 eid e
        (rw (eq_of_== i eid q) (rw (request_settled now eid r t e h s) h)) s
  | inr q ↦
      run_requests_settled rs (request now i r t).1 eid e
        (request_frame now i eid r t (λ p. ne_of_== q p) ∙ h) s
]
