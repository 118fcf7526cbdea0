-- ===== src/Tests/Durable.antt =====
-- A run of two payments whose worker dies in the second.
use anchor_runtime.Base.{
  ℕ, zero, suc, arith, show, erase, insert, Bool, ◌+◌, none, some, List, [], ◌∷◌, ◌≡◌, refl, lookup,
}
use anchor_runtime.Budget.{check}
use anchor_runtime.Value.{is_json, Value, int, end}
use anchor_runtime.Model.{usage_from_dict, budget_from_dict, Uuid, running, RunRecord, at_most_once}
use anchor_runtime.Exec.{ok}
use anchor_runtime.Postgres.Tables.{find?, update_run, Db, to_run, find_run}
use anchor_runtime.Machine.{M, Machine, Interference, crash, others}
use anchor_runtime.Machine.Preserves.{only_guard-Preserves}
use anchor_runtime.Callable.{Callable, invoke}
use anchor_runtime.Postgres.Queue.{heartbeat}
use anchor_runtime.Context.Guards.{Runtime}
use anchor_runtime.Postgres.Events.{append_event}
use anchor_runtime.Postgres.Runs.{is_cancel_requested, save_usage}
use anchor_runtime.Context.Replay.{next_key, new_context}
use anchor_runtime.Context.Steps.{step_with_key}
use anchor_runtime.Worker.{owns}
use anchor_runtime.Context.Durable.Log.{HasRun, Later, Later-refl}
use anchor_runtime.Context.Durable.Attempt.{IsMonotone, IsDurable, call-IsDurable}
use anchor_runtime.Context.Durable.Trajectory.{Program, finish, then_step, perform, trajectory}
use anchor_runtime.Context.Durable.Holding.{IsQuiet, IsClean}
use anchor_runtime.Context.Durable.Remains.{remains}
use anchor_runtime.Context.Durable.Resumed.{
  Continues, attempt_at, start-IsDurable, resumed_trajectory,
}
use anchor_runtime.Context.Durable.Finished.{IsAnswered, returned_again}
use anchor_runtime.Tests.Fixtures.{run_row, db_with, db_with-IsGapless, runtime, worker, seven}

abbrev leased : Runtime
leased = record runtime { lease_guard = some (owns worker "r1") }

abbrev later_step : Value → Program
later_step v = then_step "pay" seven at_most_once none none end finish

abbrev two_payments : Program
two_payments = then_step "pay" seven at_most_once none none end later_step

-- A second passes.
abbrev tick : Db → Db
tick db = record db { now = db.now + 1 }

-- A second passes before each of so many calls, and then the process dies.
unfoldable dies_after : ℕ → List Interference
dies_after zero = crash ∷ []
dies_after (suc n) = others tick ∷ dies_after n

abbrev the_run : RunRecord
the_run = to_run (run_row running)

db_with-HasRun : HasRun "r1" (db_with running)
unfolding find_run
db_with-HasRun = record { gapless = db_with-IsGapless running; row = run_row running; found = refl }

tick-Later : (db : Db) → HasRun "r1" db → Later "r1" db (tick db)
tick-Later db h = record {
  has_run = record { gapless = h.gapless; row = h.row; found = h.found };
  results = λ k v r. r;
}

dies_after-IsMonotone : (n : ℕ) → IsMonotone "r1" (dies_after n)
unfolding dies_after
dies_after-IsMonotone zero = tt
dies_after-IsMonotone (suc n) = (tick-Later, dies_after-IsMonotone n)

owns-IsQuiet : IsQuiet "r1" (owns worker "r1")
unfolding owns heartbeat
owns-IsQuiet C =
    call-IsDurable "r1" C (heartbeat "r1" "w1" worker.engine.settings.lease_seconds) (λ db h.
      record {
        has_run = record { gapless = h.gapless; row = h.row; found = h.found };
        results = λ k v r. r;
      })

guard-IsQuiet : (g : M Bool) → leased.lease_guard ≡ some g → IsQuiet "r1" g
guard-IsQuiet g same C =
    only_guard-Preserves (IsDurable "r1" C) (owns worker "r1") g same (owns-IsQuiet C)

seven-IsQuiet : (token : Uuid) → IsQuiet "r1" (invoke seven (some token) end)
unfolding invoke
seven-IsQuiet token C s h = h

no_verifier-IsQuiet :
    (token : Uuid) (f : Callable) → none ≡ some f → IsQuiet "r1" (invoke f (some token) end)
no_verifier-IsQuiet token f e = ground (arith, e)

two_payments-IsClean : IsClean leased two_payments
two_payments-IsClean =
    (seven-IsQuiet, no_verifier-IsQuiet, λ v. (seven-IsQuiet, no_verifier-IsQuiet, λ w. tt))

abbrev first_attempt : Machine
first_attempt = attempt_at "r1" the_run (db_with running) (dies_after 8)

ended-HasRun : HasRun "r1" (perform leased two_payments first_attempt).1.db
unfolding new_context
ended-HasRun =
    (remains leased guard-IsQuiet two_payments two_payments-IsClean [] first_attempt tt (
      start-IsDurable "r1" the_run (db_with running) (dies_after 8) db_with-HasRun
        (dies_after-IsMonotone 8))).has_run

one_payment_returns : trajectory leased two_payments first_attempt ≡ ("pay#1", int 7) ∷ []
unfolding trajectory step_with_key lookup next_key new_context owns dies_after heartbeat find?
    is_cancel_requested find_run check to_run budget_from_dict append_event invoke is_json
    update_run show insert usage_from_dict save_usage erase
one_payment_returns = refl

resumed_trajectory_example :
    Continues
      (trajectory leased two_payments
        (attempt_at "r1" the_run (perform leased two_payments first_attempt).1.db []))
      (trajectory leased two_payments first_attempt)
resumed_trajectory_example =
    resumed_trajectory leased leased two_payments the_run the_run (db_with running)
      (perform leased two_payments first_attempt).1.db (dies_after 8) [] guard-IsQuiet
      two_payments-IsClean db_with-HasRun (dies_after-IsMonotone 8) (Later-refl "r1" _ ended-HasRun)

abbrev fresh_attempt : Machine
fresh_attempt = attempt_at "r1" the_run (db_with running) []

abbrev paid : Machine
paid = (step_with_key leased "pay#1" seven at_most_once none none end fresh_attempt).1

both_return : (perform leased two_payments fresh_attempt).0 ≡ ok (int 7)
unfolding perform step_with_key lookup next_key new_context owns dies_after heartbeat find?
    is_cancel_requested find_run check to_run budget_from_dict append_event invoke is_json
    update_run show insert usage_from_dict save_usage erase
both_return = refl

abbrev after_both : Db
after_both = (perform leased two_payments fresh_attempt).1.db

after_both-HasRun : HasRun "r1" after_both
unfolding new_context
after_both-HasRun =
    (remains leased guard-IsQuiet two_payments two_payments-IsClean [] fresh_attempt tt
      (start-IsDurable "r1" the_run (db_with running) [] db_with-HasRun tt)).has_run

returned_again_example :
    IsAnswered
      (int 7)
      (attempt_at "r1" the_run after_both [])
      (perform leased two_payments (attempt_at "r1" the_run after_both []))
returned_again_example =
    returned_again leased leased two_payments the_run the_run (db_with running) after_both [] []
      (int 7) guard-IsQuiet two_payments-IsClean db_with-HasRun tt both_return
      (Later-refl "r1" after_both after_both-HasRun)
