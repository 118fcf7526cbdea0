-- ===== src/Tests/Requests.antt =====
-- Requests of clients on concrete tables.
use anchor_runtime.Base.{◌<>◌, ◌⊎◌, true, false, some, [], ◌∷◌, ◌≡◌, refl}
use anchor_runtime.Value.{bool, str, end, field}
use anchor_runtime.Model.{running, status_value, terminal, run_to_api}
use anchor_runtime.Api.Pages.{metrics}
use anchor_runtime.Postgres.Runs.{status_counts}
use anchor_runtime.Postgres.Queue.{queue_depth}
use anchor_runtime.Machine.{call}
use anchor_runtime.Base.{show}
use anchor_runtime.Exec.{ok, pure}
use anchor_runtime.Value.{null}
use anchor_runtime.Registry
use anchor_runtime.Registry.{Registry, workflow_names}
use anchor_runtime.Postgres.Tables.{Db, find_run, find_key, to_run}
use anchor_runtime.Api.{answer, refused, SubmitRunIn, cancel_run, submit_run}
use anchor_runtime.Api.Answers.{Flagged, cancel_known, repeated_submission}
use anchor_runtime.Tests.Fixtures.{no_limits, run_row, db_with, db_with-IsGapless, machine, host}

cancel_known_example :
    ((terminal running ≡ true)
      × (cancel_run host "r1" (machine running) ≡ (
        ok (refused 409 ("run is already " <> status_value running <> " and cannot be cancelled")),
        machine running,
      )))
    ⊎ ((terminal running ≡ false)
        × (db : Db) × (cancel_run host "r1" (machine running) ≡ (
          ok (answer 200 (field "run_id" (str "r1") (field "cancel_requested" (bool true) end))),
          record (machine running) { db = db },
        ))
        × Flagged "r1" (run_row running) (db_with running) db)
unfolding find_run
cancel_known_example =
    cancel_known host "r1" (machine running) (run_row running) refl (db_with-IsGapless running) refl

abbrev registry : Registry
registry = record Registry.empty {
  workflows = ("refund", record { ident = 1; run = λ input. pure null }) ∷ [];
}

abbrev request : SubmitRunIn
request = record { workflow = "refund"; input = end; budget = no_limits }

repeated_submission_example :
    submit_run host registry "r2" "new" (some "k1") request (machine running) ≡ (
      ok (
          answer 200
            (field "created" (bool false) (run_to_api host.iso (to_run (run_row running))))),
      machine running,
    )
unfolding workflow_names find_key
repeated_submission_example =
    repeated_submission host registry "r2" "new" (some "k1") request (machine running)
      (run_row running) refl refl refl

metrics_page :
    (metrics (machine running)).0
    ≡ ok
        "# HELP anchor_runs_total Runs by terminal or current status.\n# TYPE anchor_runs_total gauge\nanchor_runs_total{status=\"RUNNING\"} 1\n# HELP anchor_queue_depth Queued runs by lease state.\n# TYPE anchor_queue_depth gauge\nanchor_queue_depth{state=\"claimable\"} 0\nanchor_queue_depth{state=\"leased\"} 1\nanchor_queue_depth{state=\"total\"} 1\n"
unfolding metrics call status_counts queue_depth status_value show
metrics_page = refl
