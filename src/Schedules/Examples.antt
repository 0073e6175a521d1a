-- ===== src/Schedules/Examples.antt =====
-- A schedule that is due and one that is not, and a registry that has dropped the first.
use reflowfy.Prelude.{
  ℕ, ◌<◌, ◌+◌, String, Bool, true, false, none, some, List, [], ◌∷◌, ◌++◌, ◌≡◌, refl, arith, All,
  map, ◌⊎◌,
}
use reflowfy.Prelude.Sql.{select, update, count, Rows, any}
use reflowfy.Prelude.Keyed.{find}
use reflowfy.Json.{Json, empty_object}
use reflowfy.Schedules.{
  PipelineSchedule, ScheduledRun, Table, Poll, fires, poll_and_trigger,
  sync_schedules_from_registry, sync_runs, sync_run,
}
use reflowfy.Schedules.Due.{
  fired_execution, fired, Advanced, Adds, poll_and_trigger-fires, poll_and_trigger_advances,
}
use reflowfy.Schedules.Sync.{find_row, declared, expected, sync_schedules_correct}

-- Every expression is once in ten.
abbrev in_ten : String → ℕ → ℕ
in_ten cron now = now + 10

in_ten_later : (cron : String) (now : ℕ) → now < in_ten cron now
in_ten_later cron now = omega arith

abbrev schedule : String → ℕ → PipelineSchedule
schedule name next = record {
  pipeline_name = "orders";
  schedule_name = name;
  cron_expression = "*/10 * * * *";
  runtime_params = empty_object;
  next_run_at = next;
  last_triggered_at = none;
  last_execution_id = none;
  enabled = true;
}

abbrev table : Table
table = schedule "morning" 5 ∷ schedule "evening" 50 ∷ []

abbrev poll : Poll
poll = record {
  now = 6;
  locked = λ s. false;
  trigger =
      λ s. record { execution_id = "sched-1"; configured = true; reachable = true; started = true };
}

poll_and_trigger-fires_example :
    let r = poll_and_trigger in_ten poll true table [] in
    (r.1 ≡ [] ++ map (fired_execution poll) (select (fires poll) table))
    × (r.0 ≡ update (fires poll) (fired in_ten poll) table)
    × All (λ s. fires poll s ≡ false) r.0
unfolding select find
poll_and_trigger-fires_example =
    poll_and_trigger-fires in_ten in_ten_later poll table []
      ((refl, refl, refl), ((refl, refl, refl), tt)) (refl, tt, tt)

poll_and_trigger_advances_example :
    let r = poll_and_trigger in_ten poll false table [] in
    Adds (count (fires poll) table) [] r.1
    × (((false ≡ true)
          × Rows (Advanced in_ten poll) table r.0
          × All (λ s. fires poll s ≡ false) r.0)
        ⊎ ((false ≡ false) × (r.0 ≡ table)))
poll_and_trigger_advances_example =
    poll_and_trigger_advances in_ten in_ten_later poll false table []

abbrev runs : List ScheduledRun
runs =
    record {
      pipeline_name = "orders";
      name = "evening";
      cron = "0 17 * * *";
      params = empty_object;
    }
    ∷ []

abbrev same : Json → Json → Bool
same a b = false

morning_off :
    find_row "orders" "morning" (sync_schedules_from_registry in_ten same 6 runs table)
    ≡ some (record (schedule "morning" 5) { enabled = false })
unfolding sync_schedules_from_registry sync_runs sync_run find_row any update
morning_off = refl

sync_schedules_correct_example :
    find_row "orders" "evening" (sync_schedules_from_registry in_ten same 6 runs table)
    ≡ expected in_ten same 6 (declared "orders" "evening" runs) (find_row "orders" "evening" table)
sync_schedules_correct_example =
    sync_schedules_correct in_ten same 6 runs table "orders" "evening" (tt, tt)
