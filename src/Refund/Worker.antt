-- ===== src/Refund/Worker.antt =====
-- A worker that runs the example agent, from the claim of a run to the settling of its queue row.
use anchor_runtime.Base.{
  ℕ, String, Bool, true, false, Option, none, some, List, ◌≡◌, subst, lookup, insert, ◌==◌,
  if◌then◌else◌,
}
use anchor_runtime.Value.{Value, Dict}
use anchor_runtime.Model.{Uuid}
use anchor_runtime.Errors.{Exn}
use anchor_runtime.Exec.{Reply, ok, raised}
use anchor_runtime.Machine.{Machine, M}
use anchor_runtime.Machine.Preserves.{only_guard-Preserves}
use anchor_runtime.Machine.Keeps.{IsPeaceful, Holds, Any, Calm}
use anchor_runtime.Registry.{WorkflowFn, workflow, register_workflow, register_tool}
use anchor_runtime.Context.Guards.{Runtime}
use anchor_runtime.Engine.{runtime}
use anchor_runtime.Worker.{Worker, WorkerStats, owns, process}
use anchor_runtime.Worker.Keeps.{owns-Calm, process-Calm}
use anchor_runtime.Refund.Tools.{Printer}
use anchor_runtime.Refund.Agent.{refund_agent, agent_runtime, workflow_fn, imported}
use anchor_runtime.Refund.Covered.{AllCovered}
use anchor_runtime.Refund.Bounded.{agent-Calm}

-- The runtime of the worker's attempt at the run.
abbrev pub attempt_runtime : Worker → Uuid → Runtime
attempt_runtime w id = runtime w.engine id (some (owns w id))

-- The worker, after the import of the example.
abbrev pub refund_worker : Printer → ℕ → Worker → Uuid → Worker
refund_worker py delay w id = record w {
  engine = record w.engine { registry = imported py (attempt_runtime w id) delay };
}

module _ (py : Printer) (rt : Runtime) (delay : ℕ)
    (calm : (input : Dict)
      → Calm AllCovered (refund_agent py (agent_runtime py rt delay) input)) where
  abbrev IsCalmFn : Reply WorkflowFn → Type 0
  IsCalmFn (ok fn) = (input : Dict) → Calm AllCovered (fn.run input)
  IsCalmFn _ = Unit

  found-IsCalmFn :
      (b : Bool) (e : Exn)
      → IsCalmFn (elim (if b then some (workflow_fn py rt delay) else none) [
        | none ↦ raised e
        | some fn ↦ ok fn
      ])
  found-IsCalmFn true e = calm
  found-IsCalmFn false e = tt

  imported-IsCalmFn :
      (name : String) (fn : WorkflowFn)
      → workflow rt.host name (imported py rt delay) ≡ ok fn
      → IsCalmFn (ok fn)
  unfolding workflow register_workflow register_tool lookup insert
  imported-IsCalmFn name fn found =
      subst (λ r. IsCalmFn r) found (found-IsCalmFn ("refund_agent" == name) _)

-- A worker processes a run of the example agent. Whatever the model asks for, wherever the process
-- dies and however the attempt ends, every refund in the table is afterwards of a known payment,
-- above nothing and no more than was captured of it, if that was so before and the others and the
-- provider keep it so.
pub worker_refunds_covered :
    (py : Printer) (delay : ℕ) (w : Worker) (id : Uuid) (stats : WorkerStats) (m : Machine)
    → ((messages : List Value) (schemas : Option (List Value)) (prompt : Option String) (most : ℕ)
        → Calm AllCovered (w.engine.provider.complete messages schemas prompt most))
    → IsPeaceful AllCovered m.schedule
    → AllCovered m.db.effects
    → AllCovered (process (refund_worker py delay w id) id stats m).1.db.effects
worker_refunds_covered py delay w id stats m provider peaceful covered =
    let rt = attempt_runtime w id in
    let guard : (g : M Bool) → rt.lease_guard ≡ some g → Calm AllCovered g = λ g same.
      only_guard-Preserves (Holds AllCovered Any) (owns w id) g same (owns-Calm AllCovered w id) in
    let run =
      process-Calm AllCovered (refund_worker py delay w id) id stats
        (imported-IsCalmFn py rt delay (agent-Calm py rt delay guard provider)) in
    (run m (record { effects = covered; peaceful = peaceful; context = tt })).effects
