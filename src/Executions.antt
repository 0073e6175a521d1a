-- ===== src/Executions.antt =====
-- The executions table (class Execution of reflowfy/reflow_manager/models.py) and ExecutionManager
-- of reflowfy/reflow_manager/execution.py. Times are microseconds, `now` is the clock that a method
-- reads. The column `updated_at` is left out: no operation reads it.
pub mod Lifecycle
pub mod Drivers
mod Examples
use reflowfy.Prelude.{
  ℕ, zero, suc, ◌+◌, String, Bool, true, false, ◌&&◌, ◌||◌, Option, none, some, List, [], ◌∷◌, ◌++◌,
  ◌≡◌, ◌↔◌, arith, Equality, not, nat_beq, if◌then◌else◌, ◌==◌, nat_eq, string_eq, ltb,
}
use reflowfy.Prelude.Sql.{select, update, count}
use reflowfy.Prelude.Keyed.{find, at_key}
use reflowfy.Json.{Json, Items, empty_object}

pub data ExecutionState : Type 0 where
  pending running paused completed failed cancelled : ExecutionState

abbrev pub state_index : ExecutionState → ℕ
state_index ExecutionState.pending = 0
state_index ExecutionState.running = 1
state_index ExecutionState.paused = 2
state_index ExecutionState.completed = 3
state_index ExecutionState.failed = 4
state_index ExecutionState.cancelled = 5

abbrev pub state_beq : ExecutionState → ExecutionState → Bool
state_beq a b = nat_beq (state_index a) (state_index b)

pub state_beq_iff : (a b : ExecutionState) → (state_beq a b ≡ true) ↔ (a ≡ b)
state_beq_iff a b = ground arith

instance abbrev pub execution_state_eq : Equality ExecutionState
execution_state_eq = record { same = state_beq; decides = state_beq_iff }

-- TERMINAL_STATES
abbrev pub is_terminal : ExecutionState → Bool
is_terminal ExecutionState.completed = true
is_terminal ExecutionState.failed = true
is_terminal ExecutionState.cancelled = true
is_terminal _ = false

-- `rate_limit` is in jobs per minute.
pub record Execution : Type 0 where
  pub execution_id : String
  pub pipeline_name : String
  pub state : ExecutionState
  pub total_jobs : ℕ
  pub jobs_dispatched : ℕ
  pub jobs_completed : ℕ
  pub jobs_failed : ℕ
  pub deduplicated_jobs : ℕ
  pub created_at : ℕ
  pub completed_at : Option ℕ
  pub error_message : Option String
  pub runtime_params : Json
  pub rate_limit : Option ℕ
  pub driver_id : Option String
  pub driver_heartbeat_at : Option ℕ
  pub plan_complete : Option Bool

abbrev pub Table : Type 0
Table = List Execution

abbrev pub key : Execution → String
key e = e.execution_id

-- WHERE execution_id = eid
abbrev pub of_id : String → Execution → Bool
of_id eid = at_key key eid (λ _. true)

abbrev pub new_execution : ℕ → String → String → Json → Option ℕ → Execution
new_execution now eid name params rate = record {
  execution_id = eid;
  pipeline_name = name;
  state = ExecutionState.pending;
  total_jobs = 0;
  jobs_dispatched = 0;
  jobs_completed = 0;
  jobs_failed = 0;
  deduplicated_jobs = 0;
  created_at = now;
  completed_at = none;
  error_message = none;
  runtime_params = params;
  rate_limit = rate;
  driver_id = none;
  driver_heartbeat_at = none;
  plan_complete = some false;
}

abbrev pub get_execution : String → Table → Option Execution
get_execution eid t = find key eid t

-- `runtime_params or {}`
abbrev pub or_empty : Json → Json
or_empty Json.null = empty_object
or_empty (Json.bool false) = empty_object
or_empty (Json.num zero) = empty_object
or_empty (Json.float zero e) = empty_object
or_empty (Json.str s) = if s == "" then empty_object else Json.str s
or_empty (Json.arr Items.nil) = empty_object
or_empty params = params

-- The primary key: `none` is the IntegrityError of a second row with the id.
unfoldable pub create_execution : ℕ → String → String → Json → Option ℕ → Table → Option Table
create_execution now eid name params rate t = elim (get_execution eid t) [
  | none ↦ some (t ++ new_execution now eid name (or_empty params) rate ∷ [])
  | some e ↦ none
]

-- An empty message is falsy and leaves the old one.
abbrev set_message : Option String → Option String → Option String
set_message none old = old
set_message (some text) old = if text == "" then old else some text

abbrev pub set_state : ℕ → ExecutionState → Option String → Execution → Execution
set_state now s message e = record e {
  state = s;
  error_message = set_message message e.error_message;
  completed_at = if is_terminal s then some now else e.completed_at;
}

-- The refreshed row and the table, or `none` for a missing row.
unfoldable pub update_execution_state :
    ℕ → String → ExecutionState → Option String → Table → Option Execution × Table
update_execution_state now eid s message t =
    let t' = update (of_id eid) (set_state now s message) t in (get_execution eid t', t')

add_to : Option ℕ → ℕ → ℕ
add_to none n = n
add_to (some k) n = n + k

unfoldable pub update_job_counts :
    String → Option ℕ → Option ℕ → Option ℕ → Table → Option Execution × Table
unfolding add_to
update_job_counts eid sent done lost t =
    let t' =
      update (of_id eid)
        (λ e. record e {
          jobs_dispatched = add_to sent e.jobs_dispatched;
          jobs_completed = add_to done e.jobs_completed;
          jobs_failed = add_to lost e.jobs_failed;
        })
        t in
    (get_execution eid t', t')

-- A transition that its method allows from the states of `allowed` only.
abbrev guarded :
    (ExecutionState → Bool)
    → (Table → Option Execution × Table)
    → String
    → Table
    → Option Execution × Table
guarded allowed move eid t = elim (get_execution eid t) [
  | none ↦ (none, t)
  | some e ↦ if allowed e.state then move t else (none, t)
]

abbrev may_pause : ExecutionState → Bool
may_pause s = s == ExecutionState.pending || s == ExecutionState.running

unfoldable pub pause_execution : ℕ → String → Table → Option Execution × Table
unfolding update_execution_state
pause_execution now eid t =
    guarded may_pause (update_execution_state now eid ExecutionState.paused none) eid t

abbrev may_resume : ExecutionState → Bool
may_resume s = s == ExecutionState.paused

unfoldable pub resume_execution : ℕ → String → Table → Option Execution × Table
unfolding update_execution_state
resume_execution now eid t =
    guarded may_resume (update_execution_state now eid ExecutionState.running none) eid t

abbrev may_cancel : ExecutionState → Bool
may_cancel s = not (is_terminal s)

unfoldable pub cancel_execution : ℕ → String → Table → Option Execution × Table
unfolding update_execution_state
cancel_execution now eid t =
    guarded may_cancel (update_execution_state now eid ExecutionState.cancelled (some "Cancelled"))
      eid t

unfoldable pub mark_plan_complete : String → Table → Table
mark_plan_complete eid t = update (of_id eid) (λ e. record e { plan_complete = some true }) t

unfoldable pub reopen_execution : String → Table → Option Execution × Table
reopen_execution eid t =
    let t' =
      update (of_id eid)
        (λ e. record e {
          state = ExecutionState.running;
          completed_at = none;
          error_message = none;
        })
        t in
    (get_execution eid t', t')

-- `driver_heartbeat_at < now - lease`, where NULL is not older.
abbrev pub is_older : ℕ → ℕ → Option ℕ → Bool
is_older now lease none = false
is_older now lease (some beat) = ltb (beat + lease) now

abbrev pub is_driver : String → Option String → Bool
is_driver d none = false
is_driver d (some o) = o == d

abbrev pub is_free : Option String → Bool
is_free none = true
is_free (some o) = false

abbrev pub may_drive : ℕ → ℕ → String → Execution → Bool
may_drive now lease d e =
    is_free e.driver_id || is_driver d e.driver_id || is_older now lease e.driver_heartbeat_at

abbrev pub take_lease : ℕ → String → Execution → Execution
take_lease now d e = record e { driver_id = some d; driver_heartbeat_at = some now }

unfoldable pub claim_driver : ℕ → String → String → ℕ → Table → Bool × Table
claim_driver now eid d lease t = (
  count (at_key key eid (may_drive now lease d)) t == 1,
  update (at_key key eid (may_drive now lease d)) (take_lease now d) t,
)

abbrev pub drives : String → Execution → Bool
drives d e = is_driver d e.driver_id

unfoldable pub heartbeat_driver : ℕ → String → String → Table → Bool × Table
heartbeat_driver now eid d t = (
  count (at_key key eid (drives d)) t == 1,
  update (at_key key eid (drives d)) (λ e. record e { driver_heartbeat_at = some now }) t,
)

abbrev pub drop_lease : Execution → Execution
drop_lease e = record e { driver_id = none; driver_heartbeat_at = none }

-- `on_host` is the LIKE '<hostname>:%' of SQL.
abbrev pub is_on_host : (String → Bool) → Execution → Bool
is_on_host on_host e = elim e.driver_id [ none ↦ false | some d ↦ on_host d ]

unfoldable pub release_drivers_on_host : (String → Bool) → Table → ℕ × Table
release_drivers_on_host on_host t =
    (count (is_on_host on_host) t, update (is_on_host on_host) drop_lease t)

unfoldable pub release_driver : String → String → Table → Table
release_driver eid d t = update (at_key key eid (drives d)) drop_lease t

unfoldable pub update_deduplicated_count : String → ℕ → Table → Table
update_deduplicated_count eid n t = update (of_id eid) (λ e. record e { deduplicated_jobs = n }) t

abbrev pub is_false : Option Bool → Bool
is_false (some false) = true
is_false _ = false

abbrev pub is_interrupted : Execution → Bool
is_interrupted e =
    e.state == ExecutionState.running
    || e.state == ExecutionState.pending && is_false e.plan_complete

unfoldable pub get_interrupted_executions : Table → List Execution
get_interrupted_executions t = select is_interrupted t
