-- ===== src/Executions/Examples.antt =====
-- A small executions table, and the theorems of Executions at it.
use text.Mathlib.TextEquality.{eq_iff}
use reflowfy.Prelude.{
  ℕ, String, true, false, Option, none, some, List, [], ◌∷◌, ◌≡◌, ◌≢◌, refl, arith, string_eq,
}
use reflowfy.Prelude.Sql.{count}
use reflowfy.Prelude.Keyed.{find, IsKeyed}
use reflowfy.Json.{empty_object}
use reflowfy.Executions.{Execution, ExecutionState, Table, key, claim_driver, heartbeat_driver}
use reflowfy.Executions.Lifecycle.{
  Request, Answered, request, request-Answered, run_requests, run_requests_settled,
}
use reflowfy.Executions.Drivers.{Act, Holds, run_acts, lease_exclusive}

abbrev execution : String → ExecutionState → Option String → Option ℕ → Execution
execution eid state driver beat = record {
  execution_id = eid;
  pipeline_name = "p";
  state = state;
  total_jobs = 0;
  jobs_dispatched = 0;
  jobs_completed = 0;
  jobs_failed = 0;
  deduplicated_jobs = 0;
  created_at = 1;
  completed_at = none;
  error_message = none;
  runtime_params = empty_object;
  rate_limit = none;
  driver_id = driver;
  driver_heartbeat_at = beat;
  plan_complete = some true;
}

abbrev running : Execution
running = execution "x" ExecutionState.running (some "d") (some 100)

abbrev done : Execution
done = execution "y" ExecutionState.completed none none

abbrev table : Table
table = running ∷ done ∷ []

find-x : find key "x" table ≡ some running
unfolding find
find-x = refl

find-y : find key "y" table ≡ some done
unfolding find
find-y = refl

other : ◌≢◌ {A = String} "y" "x"
other e = cc ((eq_iff "y" "x").1 e)

request-Answered_example :
    Answered 120 "x" Request.pause running table
      (request 120 "x" Request.pause table)
      (some ExecutionState.paused)
    × (find key "y" (request 120 "x" Request.pause table).1 ≡ find key "y" table)
request-Answered_example = request-Answered 120 "x" "y" Request.pause table running find-x other

run_requests_settled_example :
    find key "y" (
      run_requests
        ((120, "y", Request.cancel) ∷ (121, "x", Request.pause) ∷ (122, "y", Request.resume) ∷ [])
        table)
    ≡ some done
run_requests_settled_example =
    run_requests_settled
      ((120, "y", Request.cancel) ∷ (121, "x", Request.pause) ∷ (122, "y", Request.resume) ∷ [])
      table "y" done find-y refl

table-IsKeyed : IsKeyed key table
table-IsKeyed = ((other, tt), (tt, tt))

held : Holds "x" "d" 100 table
held = record {
  keyed = table-IsKeyed;
  row = running;
  found = find-x;
  held = record { owned = refl; recent = omega arith };
}

abbrev acts : List (ℕ × String × Act)
acts =
    (120, "x", Act.claims "o" 60)
    ∷ (130, "x", Act.beats "d")
    ∷ (140, "y", Act.claims "o" 60)
    ∷ (150, "x", Act.beats "o")
    ∷ []

lease_exclusive_example :
    ((heartbeat_driver 155 "x" "o" (run_acts acts table)).0 ≡ false)
    × ((claim_driver 155 "x" "o" 60 (run_acts acts table)).0 ≡ false)
lease_exclusive_example =
    lease_exclusive "x" "d" "o" 100 155 60 acts table
      (
        (omega arith, λ e. omega arith),
        ((λ e. omega arith), ((omega arith, λ e. omega arith), ((λ e. omega arith), tt))),
      )
      (omega arith) held

claim_late : (claim_driver 200 "x" "o" 60 table).0 ≡ true
unfolding claim_driver count
claim_late = refl
