-- ===== src/Retention/Examples.antt =====
-- An execution that completed long ago and one that runs, and the theorem of Retention at them.
use text.Mathlib.TextEquality.{eq_iff}
use reflowfy.Prelude.{String, none, some, [], ◌∷◌, if◌then◌else◌, ◌≡◌, ◌≢◌, refl, string_eq}
use reflowfy.Prelude.Keyed.{find, IsKeyed}
use reflowfy.Json.{empty_object}
use reflowfy.Executions.{Execution, ExecutionState, new_execution}
use reflowfy.Executions
use reflowfy.Runner.{World}
use reflowfy.Retention.{purge_expired_executions}
use reflowfy.Retention.Kept.{is_deleted, jobs_of, purge_expired_executions-Keeps}

abbrev old : Execution
old = record (new_execution 1 "x" "p" empty_object none) {
  state = ExecutionState.completed;
  completed_at = some 5;
}

abbrev world : World
world = record { executions = old ∷ new_execution 1 "y" "p" empty_object none ∷ []; jobs = [] }

other : ◌≢◌ {A = String} "y" "x"
other e = cc ((eq_iff "y" "x").1 e)

world-IsKeyed : IsKeyed Executions.key world.executions
world-IsKeyed = ((other, tt), (tt, tt))

found : find Executions.key "x" world.executions ≡ some old
unfolding find
found = refl

-- An hour is kept, and an hour has passed.
purge_expired_executions-Keeps_example :
    (find Executions.key "x" (purge_expired_executions 1 3600000006 world).1.executions
      ≡ (if is_deleted 1 3600000006 old then none else some old))
    × (jobs_of "x" (purge_expired_executions 1 3600000006 world).1.jobs
        ≡ (if is_deleted 1 3600000006 old then [] else jobs_of "x" world.jobs))
purge_expired_executions-Keeps_example =
    purge_expired_executions-Keeps 1 3600000006 world "x" old world-IsKeyed found
