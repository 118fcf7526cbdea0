-- ===== src/Context/Durable/Result.antt =====
-- The result of one step in a later attempt, whatever the workflow around it is.
use anchor_runtime.Base.{ℕ, String, Bool, Option, some, Assoc, ◌≡◌}
use anchor_runtime.Value.{Value, Dict}
use anchor_runtime.Model.{Uuid, StepIdempotency}
use anchor_runtime.Machine.{Machine, M}
use anchor_runtime.Callable.{Callable, invoke}
use anchor_runtime.Context.Guards.{Runtime}
use anchor_runtime.Context.Steps.{step_with_key}
use anchor_runtime.Context.Preserves.Steps.{step-Preserves}
use anchor_runtime.Context.Durable.Attempt.{IsDurable, Durable-IsStable}
use anchor_runtime.Context.Durable.Holding.{IsQuiet}

abbrev pub Anything : Assoc Value → Assoc ℕ → Type 0
Anything c o = Unit

-- A step leaves the attempt durable.
pub step-IsDurable :
    (rt : Runtime) (key : String) (fn : Callable) (i : StepIdempotency) (verify : Option Callable)
    (max_attempts : Option ℕ) (kwargs : Dict) (m : Machine)
    → ((g : M Bool) → rt.lease_guard ≡ some g → IsQuiet rt.run_id g)
    → ((token : Uuid) → IsQuiet rt.run_id (invoke fn (some token) kwargs))
    → ((token : Uuid) (f : Callable)
        → verify ≡ some f
        → IsQuiet rt.run_id (invoke f (some token) kwargs))
    → IsDurable rt.run_id Anything m
    → IsDurable rt.run_id Anything (step_with_key rt key fn i verify max_attempts kwargs m).1
step-IsDurable rt key fn i verify max_attempts kwargs m guard body answers h =
    step-Preserves (IsDurable rt.run_id Anything) rt key
      (Durable-IsStable rt Anything key (λ w c o held. held)) fn i verify max_attempts kwargs
      (λ g same. guard g same Anything) (λ token. body token Anything)
      (λ token f same. answers token f same Anything) m h
