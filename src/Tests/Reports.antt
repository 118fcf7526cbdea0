-- ===== src/Tests/Reports.antt =====
-- Budgets, records and outcomes on concrete values.
use anchor_runtime.Base.{true, false, ◌⊎◌, none, some, ◌≡◌, ◌↔◌, refl, is_some}
use anchor_runtime.Value.{int, is_json}
use anchor_runtime.Model.{running, completed, terminal, Budget, Usage, no_usage}
use anchor_runtime.Errors.{lease_lost}
use anchor_runtime.Exec.{ok}
use anchor_runtime.Budget.{BudgetTracker, check, elapsed_seconds}
use anchor_runtime.Budget.Ceilings.{IsWithin, check_iff}
use anchor_runtime.Provider.{response_to_dict, response_from_dict}
use anchor_runtime.Provider.RoundTrip.{response_round_trip}
use anchor_runtime.Postgres.Tables.{find_run, find_queued, to_run}
use anchor_runtime.Postgres.Runs.{get_run}
use anchor_runtime.Machine.{call, Machine}
use anchor_runtime.Engine.{Outcome, execute, on_exception, complete, recorded_outcome}
use anchor_runtime.Engine.Settled.{IsSettled, Returns}
use anchor_runtime.Engine.Verdicts.{exception_recorded}
use anchor_runtime.Engine.Results.{Refuses, result_recorded}
use anchor_runtime.Engine.Ended.{completed_again}
use anchor_runtime.Worker.{no_stats, process}
use anchor_runtime.Worker.Settling.{leaves_when_ended}
use anchor_runtime.Tests.Fixtures.{
  no_limits, response, run_row, db_with-IsGapless, machine, runtime, engine, worker,
}

abbrev tight : Budget
tight = record no_limits { max_tokens = some 100; max_tool_calls = some 2 }

abbrev some_usage : Usage
some_usage = record no_usage { input_tokens = 60; output_tokens = 20; tool_calls = 1 }

abbrev tracker : BudgetTracker
tracker = record { budget = tight; usage = some_usage; run_created_at = 0 }

check_iff_example : (check tracker 5 ≡ none) ↔ IsWithin tight some_usage (elapsed_seconds tracker 5)
check_iff_example = check_iff tracker 5

response_round_trip_example : response_from_dict (response_to_dict response) ≡ some response
response_round_trip_example = response_round_trip response

IsSettled-machine : IsSettled "r1" running (machine running)
unfolding find_run
IsSettled-machine = record { quiet = refl; gapless = db_with-IsGapless running; shown = refl }

exception_recorded_example :
    Returns
      (λ o. o.status ≡ running)
      "r1"
      running
      (on_exception runtime (lease_lost "gone") (machine running))
exception_recorded_example =
    exception_recorded runtime running (lease_lost "gone") (machine running) IsSettled-machine

result_recorded_example :
    ((is_json (int 7) ≡ true)
      × Returns
          (λ o. (o.status ≡ completed) × (o.result ≡ int 7))
          "r1"
          completed
          (complete runtime (int 7) (machine running)))
    ⊎ ((is_json (int 7) ≡ false)
        × Refuses runtime running (machine running) (complete runtime (int 7) (machine running)))
result_recorded_example =
    result_recorded runtime running (int 7) (machine running) IsSettled-machine

completed_again_example :
    (n : Machine) × (o : Outcome) × (complete runtime (int 7) (machine running) ≡ (ok o, n))
    × (o.status ≡ completed)
    × (o.result ≡ int 7)
    × (o.error ≡ none)
    × (execute engine "r1" none n
        ≡ (ok (record o { error = none; replayed_steps = 0; executed_steps = 0 }), n))
unfolding find_run is_json
completed_again_example =
    completed_again engine "r1" none running (int 7) (machine running) (run_row running) refl
      IsSettled-machine refl refl

leaves_when_ended_example :
    is_some (find_queued "r1" (process worker "r1" no_stats (machine completed)).1.db.queue) ≡ false
unfolding execute call get_run find_run terminal to_run find_queued
leaves_when_ended_example =
    leaves_when_ended worker "r1" no_stats (machine completed) (machine completed)
      (ok (recorded_outcome engine "r1" none (to_run (run_row completed)))) refl refl refl

abbrev finished : Outcome
finished = recorded_outcome engine "r1" none (to_run (run_row completed))
