-- ===== src/Dispatch.antt =====
-- Sending jobs in order: KafkaDispatcher of reflowfy/reflow_manager/dispatcher.py, LocalDispatcher of
-- reflowfy/reflow_manager/local_dispatcher.py, and the `should_stop` of `_send_jobs` in
-- reflowfy/reflow_manager/pipeline_runner.py. Kafka, the token bucket, the worker that runs a job in
-- the process and the callbacks are operations of a port over a state `S`.
pub mod Order
pub mod Stops
mod Examples
use reflowfy.Prelude.{
  ℕ, ◌+◌, Bool, true, false, ◌&&◌, ◌||◌, not, Option, none, some, List, [], ◌∷◌, if◌then◌else◌, leb,
  ◌-◌,
}

-- What a send does: MessageSizeTooLargeError is `too_large`, another KafkaError `kafka_error`.
pub data Sent : Type 0 where
  sent too_large kafka_error : Sent

-- `should_stop c` is should_stop(chunk=c), `acquire` is acquire_token for the caller's pipeline and
-- rate. Where a callback is None it returns False or does nothing; `has_on_unsendable` tells whether
-- on_unsendable is given.
pub record Port {ℓ κ} (J : Type ℓ) (S : Type κ) : Type (ℓ ⊔ κ) where
  pub should_stop : Bool → S → Bool × S
  pub acquire : S → Bool × S
  pub send : J → S → Sent × S
  pub on_sent : J → S → S
  pub has_on_unsendable : Bool
  pub on_unsendable : J → S → S

module _ {ℓ κ} {J : Type ℓ} {S : Type κ} (port : Port J S) where
  -- KafkaDispatcher.dispatch_jobs_batch, from the count `dispatched` on.
  unfoldable pub kafka_loop : List J → ℕ → S → ℕ × S
  kafka_loop [] dispatched s = (dispatched, s)
  kafka_loop (job ∷ jobs) dispatched s =
      let (stop, s1) = port.should_stop true s in
      let (token, s2) = port.acquire s1 in
      let (stop_now, s3) = port.should_stop false s2 in
      let (result, s4) = port.send job s3 in
      let after_sent = kafka_loop jobs (dispatched + 1) (port.on_sent job s4) in
      let after_unsendable = kafka_loop jobs dispatched (port.on_unsendable job s4) in
      if stop
      then (dispatched, s1)
      else if not token
      then (dispatched, s2)
      else if stop_now
      then (dispatched, s3)
      else elim result [
        | sent ↦ after_sent
        | too_large ↦ if port.has_on_unsendable then after_unsendable else (dispatched, s4)
        | kafka_error ↦ (dispatched, s4)
      ]

  unfoldable pub dispatch_jobs_batch : List J → S → ℕ × S
  unfolding kafka_loop
  dispatch_jobs_batch jobs s = kafka_loop jobs 0 s

  -- LocalDispatcher.dispatch_jobs_batch; `send` runs the job, whose failure is logged and no more.
  -- `limited` tells whether there is a rate limit.
  unfoldable pub local_loop : Bool → List J → ℕ → S → ℕ × S
  local_loop limited [] dispatched s = (dispatched, s)
  local_loop limited (job ∷ jobs) dispatched s =
      let (stop, s1) = port.should_stop true s in
      let (token, s2) = if limited then port.acquire s1 else (true, s1) in
      let rest = local_loop limited jobs (dispatched + 1) (port.on_sent job (port.send job s2).1) in
      if stop then (dispatched, s1) else if not token then (dispatched, s2) else rest

  unfoldable pub local_dispatch_jobs_batch : Bool → List J → S → ℕ × S
  unfolding local_loop
  local_dispatch_jobs_batch limited jobs s = local_loop limited jobs 0 s

-- The variables that the closure `should_stop` of _send_jobs keeps. Times are microseconds.
pub record StopState : Type 0 where
  pub last_check : ℕ
  pub stop : Bool

-- `ended` is what a look at the database says: the lease is lost or the execution is not running.
-- The clock does not go back.
unfoldable pub should_stop : ℕ → ℕ → ℕ → Bool → Bool → StopState → Bool × StopState
should_stop started chunk_time now ended chunk s =
    let looked =
      if leb 1000000 (now - s.last_check) then record { last_check = now; stop = ended } else s in
    if chunk && leb chunk_time (now - started) then (true, s) else (looked.stop, looked)
