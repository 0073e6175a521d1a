-- ===== src/Jobs.antt =====
-- The jobs table: class Job of reflowfy/reflow_manager/models.py. Times are microseconds.
-- Manager holds the operations of JobManager, Worker those of the worker on its own row; the
-- other children prove what they do.
pub mod Manager
pub mod Worker
pub mod Steps
pub mod Attempts
pub mod Claims
pub mod Queue
pub mod Sweeps
pub mod Counts
mod Examples
use reflowfy.Prelude.{ℕ, String, Bool, true, false, Option, ◌≡◌, ◌↔◌, arith, Equality, nat_beq}
use reflowfy.Json.{Json}

-- pending → dispatched (message sent) → running (claimed by a worker) → a final state.
pub data JobState : Type 0 where
  pending dispatched running completed failed deduplicated cancelled : JobState

abbrev pub state_index : JobState → ℕ
state_index JobState.pending = 0
state_index JobState.dispatched = 1
state_index JobState.running = 2
state_index JobState.completed = 3
state_index JobState.failed = 4
state_index JobState.deduplicated = 5
state_index JobState.cancelled = 6

abbrev pub state_beq : JobState → JobState → Bool
state_beq a b = nat_beq (state_index a) (state_index b)

pub state_beq_iff : (a b : JobState) → (state_beq a b ≡ true) ↔ (a ≡ b)
state_beq_iff a b = ground arith

instance abbrev pub state_eq : Equality JobState
state_eq = record { same = state_beq; decides = state_beq_iff }

pub record Job : Type 0 where
  pub job_id : String
  pub execution_id : String
  pub job_payload : Json
  pub batch_number : Option ℕ
  pub state : JobState
  pub attempts : ℕ
  pub processed_records : ℕ
  pub error_message : Option String
  pub error_traceback : Option String
  pub stats : Option Json
  pub created_at : ℕ
  pub updated_at : ℕ
  pub dispatched_at : Option ℕ
  pub completed_at : Option ℕ

-- Job.state.in_(["pending", "dispatched"]): no worker has started the job.
abbrev pub is_unstarted : JobState → Bool
is_unstarted JobState.pending = true
is_unstarted JobState.dispatched = true
is_unstarted _ = false

-- The states in which a job stays until somebody puts it back in the queue.
abbrev pub is_final : JobState → Bool
is_final JobState.pending = false
is_final JobState.dispatched = false
is_final JobState.running = false
is_final _ = true
