-- ===== src/Worker.antt =====
-- src/anchor/worker.py: claim a run, execute one attempt, settle its queue row, and the background
-- heartbeat. In an attempt the heartbeat and the other tasks of the process act between the calls of
-- the store, as part of the machine's schedule.
pub mod Settling
pub mod Loop
pub mod Beats
pub mod Keeps
use anchor_runtime.Base.{
  ℕ, zero, suc, ◌+◌, String, Bool, true, false, Option, none, some, Assoc, lookup, insert, or_else,
  [], if◌then◌else◌,
}
use anchor_runtime.Model.{
  Uuid, RunStatus, pending, running, completed, failed, cancelled, needs_review, status_value,
  Claim,
}
use anchor_runtime.Exec.{Reply, ok, raised, crashed, pure, ◌>>=◌, ◌>>◌}
use anchor_runtime.Postgres.Queue
use anchor_runtime.Postgres.Queue.{claim, heartbeat, release, dequeue}
use anchor_runtime.Machine.{M, call, sleep, with_reply}
use anchor_runtime.Engine.{Engine, Outcome, execute, should_dequeue}

pub record WorkerStats : Type 0 where
  pub claimed : ℕ
  pub completed : ℕ
  pub failed : ℕ
  pub cancelled : ℕ
  pub needs_review : ℕ
  pub lease_lost : ℕ
  pub replayed_steps : ℕ
  pub by_status : Assoc ℕ

abbrev pub no_stats : WorkerStats
no_stats = record {
  claimed = 0;
  completed = 0;
  failed = 0;
  cancelled = 0;
  needs_review = 0;
  lease_lost = 0;
  replayed_steps = 0;
  by_status = [];
}

abbrev pub count_status : RunStatus → WorkerStats → WorkerStats
count_status completed s = record s { completed = s.completed + 1 }
count_status failed s = record s { failed = s.failed + 1 }
count_status cancelled s = record s { cancelled = s.cancelled + 1 }
count_status needs_review s = record s { needs_review = s.needs_review + 1 }
count_status _ s = record s { lease_lost = s.lease_lost + 1 }

-- `WorkerStats.record`
unfoldable pub record_outcome : Outcome → WorkerStats → WorkerStats
record_outcome o s =
    let value = status_value o.status in
    count_status o.status (record s {
      replayed_steps = s.replayed_steps + o.replayed_steps;
      by_status = insert value (or_else (lookup value s.by_status) 0 + 1) s.by_status;
    })

pub record Worker : Type 0 where
  pub engine : Engine
  pub worker_id : String

module _ (w : Worker) where
  -- `_owns`
  unfoldable pub owns : Uuid → M Bool
  owns run_id = call (heartbeat run_id w.worker_id w.engine.settings.lease_seconds)

  -- `_heartbeat`, cancelled after so many rounds: false if the lease was gone before.
  unfoldable pub heartbeat_task : Uuid → ℕ → M Bool
  heartbeat_task run_id zero = pure true
  heartbeat_task run_id (suc rounds) =
      let rest = heartbeat_task run_id rounds in
      (do
        sleep w.engine.settings.heartbeat_seconds
        held ← call (heartbeat run_id w.worker_id w.engine.settings.lease_seconds)
        if held then rest else pure false)

  -- The `except Exception` of `_process`: give the run back.
  abbrev pub give_back : Uuid → WorkerStats → M (Option Outcome × WorkerStats)
  give_back run_id stats =
      call (release run_id w.worker_id w.engine.settings.poll_interval_seconds)
      >> pure (none, stats)

  abbrev pub settle_queue : Uuid → Outcome → M Unit
  settle_queue run_id o = if should_dequeue o then call (dequeue run_id) else pure tt

  abbrev pub after_execute : Uuid → WorkerStats → Reply Outcome → M (Option Outcome × WorkerStats)
  after_execute run_id stats (ok o) = settle_queue run_id o >> pure (some o, record_outcome o stats)
  after_execute run_id stats (raised e) = give_back run_id stats
  after_execute run_id stats crashed = λ m. (crashed, m)

  -- `_process` with `return_outcome=True`
  unfoldable pub process : Uuid → WorkerStats → M (Option Outcome × WorkerStats)
  unfolding owns
  process run_id stats =
      with_reply (execute w.engine run_id (some (owns run_id))) (after_execute run_id stats)

  abbrev process_claim : WorkerStats → Option Claim → M (Option Outcome × WorkerStats)
  process_claim stats none = pure (none, stats)
  process_claim stats (some c) = process c.run_id (record stats { claimed = stats.claimed + 1 })

  -- `run_once`
  unfoldable pub run_once : WorkerStats → M (Option Outcome × WorkerStats)
  unfolding process
  run_once stats = do
    found ← call (claim w.worker_id w.engine.settings.lease_seconds)
    process_claim stats found
