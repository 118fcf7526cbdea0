-- ===== src/Worker/Keeps.antt =====
-- Invariants of the side effects while a worker processes a run.
use anchor_runtime.Base.{String, none, some, List, ◌≡◌}
use anchor_runtime.Value.{Dict}
use anchor_runtime.Model.{Uuid}
use anchor_runtime.Exec.{Reply, ok, raised, crashed, pure}
use anchor_runtime.Postgres.Tables.{EffectRow}
use anchor_runtime.Postgres.Queue.{heartbeat, release, dequeue}
use anchor_runtime.Machine.{call}
use anchor_runtime.Machine.Preserves.{with_reply-Preserves}
use anchor_runtime.Machine.Keeps.{Holds, Calm, Any, call-Keeps, bind-Keeps, if-Keeps}
use anchor_runtime.Registry.{WorkflowFn, workflow}
use anchor_runtime.Engine.{Outcome, execute, should_dequeue}
use anchor_runtime.Engine.Keeps.{execute-Calm}
use anchor_runtime.Worker.{
  Worker, WorkerStats, owns, settle_queue, after_execute, process, record_outcome,
}

module _ (E : List EffectRow → Type 0) (w : Worker) where
  pub owns-Calm : (id : Uuid) → Calm E (owns w id)
  unfolding owns heartbeat
  owns-Calm id =
      call-Keeps E Any (heartbeat id w.worker_id w.engine.settings.lease_seconds) (λ db h. h)

  settle_queue-Calm : (id : Uuid) (o : Outcome) → Calm E (settle_queue w id o)
  unfolding dequeue
  settle_queue-Calm id o =
      if-Keeps E Any (should_dequeue o) (call (dequeue id)) (pure tt)
        (call-Keeps E Any (dequeue id) (λ db h. h)) (λ s h. h)

  after_execute-Calm :
      (id : Uuid) (stats : WorkerStats) (r : Reply Outcome) → Calm E (after_execute w id stats r)
  unfolding release
  after_execute-Calm id stats (ok o) =
      bind-Keeps E Any (settle_queue w id o) (λ _. pure (some o, record_outcome o stats))
        (settle_queue-Calm id o) (λ _ s h. h)
  after_execute-Calm id stats (raised e) =
      bind-Keeps E Any (call (release id w.worker_id w.engine.settings.poll_interval_seconds))
        (λ _. pure (none, stats))
        (call-Keeps E Any (release id w.worker_id w.engine.settings.poll_interval_seconds)
          (λ db h. h))
        (λ _ s h. h)
  after_execute-Calm id stats crashed = λ s h. h

  pub process-Calm :
      (id : Uuid) (stats : WorkerStats)
      → ((name : String) (fn : WorkflowFn)
          → workflow w.engine.host name w.engine.registry ≡ ok fn
          → (input : Dict) → Calm E (fn.run input))
      → Calm E (process w id stats)
  unfolding process
  process-Calm id stats runs =
      with_reply-Preserves (Holds E Any) (execute w.engine id (some (owns w id)))
        (after_execute w id stats) (execute-Calm E w.engine id (some (owns w id)) runs)
        (after_execute-Calm id stats)
