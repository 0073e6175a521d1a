-- ===== src/Runner/Recover/Examples.antt =====
-- An execution that was interrupted while it was planned, and the theorems of Runner.Recover at it.
use reflowfy.Prelude.{◌+◌, ◌*◌, true, none, some, [], ◌∷◌, ◌≡◌, refl, arith, string_eq}
use reflowfy.Prelude.Keyed.{find}
use reflowfy.Json.{empty_object}
use reflowfy.Executions.{Execution, ExecutionState, new_execution, get_execution}
use reflowfy.Executions
use reflowfy.Runner.{World}
use reflowfy.Runner.Recover.{Recovered, Recovery, Resumed, resume_execution}
use reflowfy.Runner.Recover.Whole.{state_at}
use reflowfy.Runner.Recover.Ends.{resume_execution-gives_up}

abbrev interrupted : Execution
interrupted = new_execution 1 "e" "p" empty_object none

abbrev world : World
world = record { executions = interrupted ∷ []; jobs = [] }

-- A round every ten ticks, with a lease of 25.
abbrev recovery : Recovery
recovery = record {
  env = λ k w. w;
  clock = λ k. 5 + k * 10;
  lease = 25;
  recovery_id = "recover:h:1";
  message = λ saved. "stopped";
}

found : find Executions.key "e" world.executions ≡ some interrupted
unfolding find
found = refl

resume_execution-gives_up_example :
    (u : World) × (resume_execution recovery "e" 4 50 "missing" true (some none) none world
      ≡ Resumed.abandoned (Recovered.failed u))
    × (state_at "e" u.executions ≡ some ExecutionState.failed)
resume_execution-gives_up_example =
    resume_execution-gives_up recovery "e" interrupted (λ k w s. s) refl refl 3 4 (omega arith)
      (omega arith, refl) 50 "missing" true none none world ((tt, tt), found)
