-- ===== src/Dispatch/Stops.antt =====
-- How soon sending stops: `should_stop` of `_send_jobs` in reflowfy/reflow_manager/pipeline_runner.py.
use reflowfy.Prelude.{ℕ, ◌+◌, ◌≤◌, Bool, true, false, List, [], ◌∷◌, leb, ◌≡◌, arith, All, ◌⊎◌, inl}
use reflowfy.Dispatch.{StopState, should_stop}

-- A call of should_stop at the time `now`; `ended` is what the database would say then.
pub record Ask : Type 0 where
  pub now : ℕ
  pub ended : Bool
  pub chunk : Bool

unfoldable pub asks : ℕ → ℕ → List Ask → StopState → StopState
asks started chunk_time [] s = s
asks started chunk_time (a ∷ rest) s =
    asks started chunk_time rest (should_stop started chunk_time a.now a.ended a.chunk s).1

-- From the time `end` on, the execution does not run or the lease is lost.
abbrev pub EndsAt : ℕ → Ask → Type 0
EndsAt end a = (leb end a.now ≡ false) ⊎ (a.ended ≡ true)

abbrev Knows : ℕ → StopState → Type 0
Knows end s = (leb end s.last_check ≡ false) ⊎ (s.stop ≡ true)

step-Knows :
    (started chunk_time end : ℕ) (a : Ask) (s : StopState)
    → EndsAt end a
    → Knows end s
    → Knows end (should_stop started chunk_time a.now a.ended a.chunk s).1
unfolding should_stop
step-Knows started chunk_time end a s e k = ground arith

asks-Knows :
    (started chunk_time end : ℕ) (calls : List Ask) (s : StopState)
    → All (EndsAt end) calls
    → Knows end s
    → Knows end (asks started chunk_time calls s)
unfolding asks
asks-Knows started chunk_time end [] s e k = k
asks-Knows started chunk_time end (a ∷ rest) s e k =
    asks-Knows started chunk_time end rest _ e.1 (step-Knows started chunk_time end a s e.0 k)

stops :
    (started chunk_time end : ℕ) (a : Ask) (s : StopState)
    → EndsAt end a
    → Knows end s
    → end + 1000000 ≤ a.now
    → (should_stop started chunk_time a.now a.ended a.chunk s).0 ≡ true
unfolding should_stop
stops started chunk_time end a s e k late = ground arith

-- A second after the execution has stopped running or the lease has been lost, for good, every call
-- tells the dispatcher to stop, whatever the calls before it, with the chunk limit or without.
pub stops_within_a_second :
    (started chunk_time end : ℕ) (calls : List Ask) (last : Ask)
    → 1 ≤ end
    → All (EndsAt end) calls
    → EndsAt end last
    → end + 1000000 ≤ last.now
    → (should_stop started chunk_time last.now last.ended last.chunk
        (asks started chunk_time calls (record { last_check = 0; stop = false }))).0
      ≡ true
stops_within_a_second started chunk_time end calls last positive before ended late =
    stops started chunk_time end last _ ended
      (asks-Knows started chunk_time end calls _ before (inl (ground arith))) late
