-- ===== src/Dispatch/Examples.antt =====
-- A dispatcher with three tokens and a message that is too large, and the theorems of Dispatch at it.
use reflowfy.Prelude.{
  ℕ, ◌-◌, Bool, true, false, List, [], ◌∷◌, ◌≡◌, refl, ◌==◌, nat_eq, ltb, if◌then◌else◌, inl, inr,
  arith,
}
use reflowfy.Dispatch.{Port, Sent, should_stop, dispatch_jobs_batch, kafka_loop}
use reflowfy.Dispatch.Order.{Reported, told_as, empty_log, logged, dispatch_jobs_batch-Reported}
use reflowfy.Dispatch.Stops.{Ask, asks, stops_within_a_second}

-- The state is the number of tokens; job 2 is too large.
abbrev port : Port ℕ ℕ
port = record {
  should_stop = λ chunk s. (false, s);
  acquire = λ s. (ltb 0 s, s - 1);
  send = λ job s. (if job == 2 then Sent.too_large else Sent.sent, s);
  on_sent = λ job s. s;
  has_on_unsendable = true;
  on_unsendable = λ job s. s;
}

abbrev jobs : List ℕ
jobs = 1 ∷ 2 ∷ 3 ∷ 4 ∷ []

-- The fourth job gets no token.
sent-two : dispatch_jobs_batch port jobs 3 ≡ (2, 0)
unfolding dispatch_jobs_batch kafka_loop
sent-two = refl

dispatch_jobs_batch-Reported_example :
    Reported
      (told_as port.has_on_unsendable)
      jobs
      0
      empty_log
      (dispatch_jobs_batch port jobs 3)
      (dispatch_jobs_batch (logged port) jobs (3, empty_log))
dispatch_jobs_batch-Reported_example = dispatch_jobs_batch-Reported port jobs 3

abbrev ask : ℕ → Bool → Ask
ask now ended = record { now = now; ended = ended; chunk = true }

-- The execution is paused at 1,500,000; the next look is at 2,000,000.
stops_within_a_second_example :
    (should_stop 0 30000000 2600000 true true (
      asks 0 30000000
        (ask 1000000 false ∷ ask 1600000 true ∷ ask 2000000 true ∷ [])
        (record { last_check = 0; stop = false }))).0
    ≡ true
stops_within_a_second_example =
    stops_within_a_second 0 30000000 1500000
      (ask 1000000 false ∷ ask 1600000 true ∷ ask 2000000 true ∷ []) (ask 2600000 true)
      (omega arith) (inl refl, (inr refl, (inr refl, tt))) (inr refl) (omega arith)
