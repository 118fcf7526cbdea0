-- ===== src/Context/Durable/Trajectory.antt =====
-- A workflow that acts by steps only, and the steps that return in an attempt at it.
use anchor_runtime.Base.{ℕ, ◌+◌, String, Bool, Option, List, [], ◌∷◌, ◌≡◌, refl, arith}
use anchor_runtime.Value.{Value, Dict}
use anchor_runtime.Model.{StepIdempotency}
use anchor_runtime.Exec.{Reply, ok, raised, crashed, continue, pure, ◌>>=◌}
use anchor_runtime.Machine.{Machine, M}
use anchor_runtime.Callable.{Callable}
use anchor_runtime.Context.Guards.{Runtime}
use anchor_runtime.Context.Replay.{next_key, step_key}
use anchor_runtime.Context.Replay.Keys.{ordinal, after_key}
use anchor_runtime.Context.Steps.{step_with_key}
use anchor_runtime.Context.Calls.{step}

-- The arguments of a step, and what is done with its result.
pub data Program : Type 0 where
  finish : Value → Program
  then_step :
      String
      → Callable
      → StepIdempotency
      → Option Callable
      → Option ℕ
      → Dict
      → (Value → Program)
      → Program

module _ (rt : Runtime) where
  unfoldable pub perform : Program → M Value
  unfolding step
  perform (finish v) = pure v
  perform (then_step name fn i verify max_attempts kwargs next) = do
    v ← step rt name fn i verify max_attempts kwargs
    perform (next v)

  -- The key of the next step of this name.
  abbrev pub key_of : String → Machine → String
  key_of name m = step_key name (ordinal name m + 1)

  abbrev pub run_step :
      String
      → Callable
      → StepIdempotency
      → Option Callable
      → Option ℕ
      → Dict
      → Machine
      → Reply (Value × Bool) × Machine
  run_step name fn i verify max_attempts kwargs m =
      step_with_key rt (key_of name m) fn i verify max_attempts kwargs (after_key name m)

  -- The steps that return in an attempt, with their results.
  unfoldable pub trajectory : Program → Machine → List (String × Value)
  trajectory (finish v) m = []
  trajectory (then_step name fn i verify max_attempts kwargs next) m =
      let (r, n) = run_step name fn i verify max_attempts kwargs m in
      elim r [
        | ok (v, executed) ↦ (key_of name m, v) ∷ trajectory (next v) n
        | raised e ↦ []
        | crashed ↦ []
      ]

  abbrev pub perform_on : (Value → Program) → Reply (Value × Bool) → Machine → Reply Value × Machine
  perform_on next (ok (v, executed)) n = perform (next v) n
  perform_on next (raised e) n = (raised e, n)
  perform_on next crashed n = (crashed, n)

  abbrev pub trajectory_on :
      String → (Value → Program) → Reply (Value × Bool) → Machine → List (String × Value)
  trajectory_on key next (ok (v, executed)) n = (key, v) ∷ trajectory (next v) n
  trajectory_on key next (raised e) n = []
  trajectory_on key next crashed n = []

  perform_then :
      (next : Value → Program) (r : Reply (Value × Bool)) (n : Machine)
      → continue
          (continue r (λ done. pure done.0) n).0
          (λ v. perform (next v))
          (continue r (λ done. pure done.0) n).1
        ≡ perform_on next r n
  perform_then next (ok (v, executed)) n = refl
  perform_then next (raised e) n = refl
  perform_then next crashed n = refl

  module _ (name : String) (fn : Callable) (i : StepIdempotency) (verify : Option Callable)
      (max_attempts : Option ℕ) (kwargs : Dict) (next : Value → Program) (m : Machine) where
    abbrev pub ran : Reply (Value × Bool) × Machine
    ran = run_step name fn i verify max_attempts kwargs m

    pub perform-step :
        perform (then_step name fn i verify max_attempts kwargs next) m
        ≡ perform_on next ran.0 ran.1
    unfolding perform step next_key
    perform-step = perform_then next ran.0 ran.1

    pub trajectory-step :
        trajectory (then_step name fn i verify max_attempts kwargs next) m
        ≡ trajectory_on (key_of name m) next ran.0 ran.1
    unfolding trajectory
    trajectory-step = ground arith
