-- ===== src/Tests/Store.antt =====
-- The store on concrete tables.
use anchor_runtime.Base.{
  String, List, [], ◌∷◌, ◌+◌, ◌≤◌, none, some, ◌≡◌, refl, arith, true, false, ◌⊎◌, ◌↔◌,
}
use anchor_runtime.Value.{end, is_json_dict}
use anchor_runtime.Model.{running}
use anchor_runtime.Exec.{ok, raised}
use anchor_runtime.Postgres.Tables.{Db, QueueRow, find_run, find_key, find_queued, not_serialisable}
use anchor_runtime.Postgres.Events.{append_event}
use anchor_runtime.Postgres.Events.Append.{Logged, append_outcome}
use anchor_runtime.Postgres.Runs.{submit_run}
use anchor_runtime.Postgres.Runs.Entered.{Entered, submission_outcome}
use anchor_runtime.Postgres.Queue.{is_claimable, claim, heartbeat}
use anchor_runtime.Postgres.Queue.Lease.{owner, claim_oldest}
use anchor_runtime.Postgres.Queue.Heartbeat.{heartbeat_iff_owner, lease_stable, perform, claims}
use anchor_runtime.Postgres.Queue.Served.{Poll, replies, is_served, waiting_run_served}
use anchor_runtime.Tests.Fixtures.{
  no_limits, run_row, queue_row, empty_db, db_with, db_with-IsGapless,
}

heartbeat_iff_owner_example :
    ((heartbeat "r1" "w1" 30 (db_with running)).0 ≡ ok true)
    ↔ (owner "r1" (db_with running) ≡ some "w1")
unfolding find_queued
heartbeat_iff_owner_example = heartbeat_iff_owner "r1" "w1" 30 (db_with running) (refl, tt)

lease_stable_example : owner "r1" (perform (claims "w2" 30) (db_with running)) ≡ some "w1"
unfolding find_queued
lease_stable_example =
    lease_stable "r1" "w1" (db_with running) (claims "w2" 30) (refl, tt) refl (λ x. x) (omega arith)

-- The lease has run out.
abbrev late_db : Db
late_db = record (db_with running) { now = 500 }

claim_oldest_example :
    (q : QueueRow) × (find_queued q.run_id late_db.queue ≡ some q)
    × (is_claimable late_db.now q ≡ true)
    × (q.visible_at ≤ 0)
    × ((claim "w2" 30 late_db).0
        ≡ ok (some (record { run_id = q.run_id; attempts = q.attempts + 1 })))
    × (owner q.run_id (claim "w2" 30 late_db).1 ≡ some "w2")
unfolding find_queued
claim_oldest_example =
    claim_oldest "w2" 30 late_db "r1" queue_row (refl, tt) (omega arith) refl refl

append_outcome_example :
    ((is_json_dict end ≡ true)
      × Logged "r1" "Note" none end 2
          (db_with running)
          (append_event "r1" "Note" none end (db_with running)))
    ⊎ ((is_json_dict end ≡ false)
        × (append_event "r1" "Note" none end (db_with running)
            ≡ (raised not_serialisable, db_with running)))
unfolding find_run
append_outcome_example =
    append_outcome "r1" "Note" none end (db_with running) (run_row running)
      (db_with-IsGapless running) refl

submission_outcome_example :
    ((is_json_dict end ≡ true)
      × Entered "r2" "refund" end "k2" no_limits
          (db_with running)
          (submit_run "r2" "refund" end "k2" no_limits (db_with running)))
    ⊎ ((is_json_dict end ≡ false)
        × (submit_run "r2" "refund" end "k2" no_limits (db_with running)
            ≡ (raised not_serialisable, db_with running)))
unfolding find_key find_run find_queued
submission_outcome_example =
    submission_outcome "r2" "refund" end "k2" no_limits (db_with running)
      (db_with-IsGapless running) refl refl refl

abbrev waiting_row : String → QueueRow
waiting_row id = record queue_row { run_id = id; locked_until = none; worker_id = none }

abbrev two_waiting : Db
two_waiting = record empty_db { queue = waiting_row "a" ∷ waiting_row "b" ∷ [] }

abbrev two_polls : List Poll
two_polls = record { pause = 0; worker = "w1" } ∷ record { pause = 5; worker = "w2" } ∷ []

waiting_run_served_example : is_served "b" (replies 60 two_polls two_waiting) ≡ true
unfolding find_queued
waiting_run_served_example =
    waiting_run_served 60 two_polls two_waiting "b" (waiting_row "b") (refl, (refl, tt)) refl refl
      (omega arith) (omega arith)
