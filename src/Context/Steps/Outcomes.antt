-- ===== src/Context/Steps/Outcomes.antt =====
-- A step that is completed already.
use anchor_runtime.Base.{ℕ, ◌+◌, String, Bool, false, Option, some, ◌≡◌, lookup}
use anchor_runtime.Value.{Value, Dict}
use anchor_runtime.Model.{StepIdempotency}
use anchor_runtime.Exec.{Reply, ok}
use anchor_runtime.Machine.{Machine}
use anchor_runtime.Callable.{Callable}
use anchor_runtime.Context.Guards.{Runtime}
use anchor_runtime.Context.Steps.{step_with_key}

abbrev pub counted_replay : Machine → Machine
counted_replay m = record m { ctx = record m.ctx { replayed_steps = m.ctx.replayed_steps + 1 } }

module _ (rt : Runtime) (key : String) (fn : Callable) (idempotency : StepIdempotency)
    (verify : Option Callable) (max_attempts : Option ℕ) (kwargs : Dict) (m : Machine) where
  abbrev run_step : Reply (Value × Bool) × Machine
  run_step = step_with_key rt key fn idempotency verify max_attempts kwargs m

  -- A completed step is replayed: its recorded result is returned, no guard is asked, the body does
  -- not run, and nothing changes but the count of replayed steps.
  pub completed_step_replays :
      (v : Value)
      → lookup key m.ctx.completed ≡ some v
      → run_step ≡ (ok (v, false), counted_replay m)
  unfolding step_with_key
  completed_step_replays v h = rw h
