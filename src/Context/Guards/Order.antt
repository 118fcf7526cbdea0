-- ===== src/Context/Guards/Order.antt =====
-- What the guards decide, and in which order.
use anchor_runtime.Base.{◌<>◌, Bool, true, false, Option, none, some, [], ◌≡◌, arith}
use anchor_runtime.Errors.{Exn, lease_lost, cancellation_requested}
use anchor_runtime.Exec.{Reply, ok, raised}
use anchor_runtime.Budget.{check}
use anchor_runtime.Postgres.Tables.{find_run}
use anchor_runtime.Postgres.Runs.{is_cancel_requested, cancel_flag}
use anchor_runtime.Machine.{Machine, M, call}
use anchor_runtime.Context.Guards.{Runtime, tracker, checkpoint_guards}

-- The guards as one decision: `owned` is the answer of the lease guard, `flag` the cancel flag.
abbrev pub verdict : Runtime → Bool → Bool → Option Exn → Reply Unit
verdict rt false flag over = raised (lease_lost ("lease lost for run " <> rt.run_id))
verdict rt true true over =
    raised (cancellation_requested ("run " <> rt.run_id <> " was cancelled"))
verdict rt true false none = ok tt
verdict rt true false (some e) = raised e

-- With nobody interfering after the lease guard has answered, a step boundary raises for a lost
-- lease first, then for a requested cancellation, then for a breached budget, and writes nothing
-- but what the lease guard writes.
guards_order :
    (rt : Runtime) (guard : M Bool) (owned : Bool) (m n : Machine)
    → rt.lease_guard ≡ some guard
    → guard m ≡ (ok owned, n)
    → n.schedule ≡ []
    → checkpoint_guards rt m ≡ (
      verdict rt owned
          (cancel_flag (find_run rt.run_id n.db.runs))
          (check (tracker n.ctx) n.db.now),
      n,
    )
unfolding checkpoint_guards call is_cancel_requested
guards_order rt guard true m n g answer quiet = rw (g, answer, quiet) (ground arith)
guards_order rt guard false m n g answer quiet = rw (g, answer)
