-- ===== src/Errors.antt =====
-- src/anchor/errors.py: the exceptions of the runtime, and those of Python that it raises or meets.
use anchor_runtime.Base.{ℕ, String, ◌<>◌, show, Bool, true, false}
use anchor_runtime.Value.{Value, int, float}
use anchor_runtime.Model.{Uuid, Time}

-- What Python and its standard library compute and this development only passes on: `uuid5`, the
-- quoting of `repr`, the printing of floats and times, and a formatted stack trace.
pub record Host : Type 0 where
  pub uuid5 : Uuid → String → Uuid
  pub repr_str : String → String
  pub show_float : ℕ → String
  pub iso : Time → String
  pub traceback : String → String

-- The integer or the float, in millionths, of a ceiling.
pub data Amount : Type 0 where
  whole fraction : ℕ → Amount

unfoldable pub amount : Amount → Value
amount (whole n) = int n
amount (fraction n) = float n

-- `other name message` is an exception of any other class, such as one that a tool raises.
pub data Exn : Type 0 where
  workflow_not_found tool_not_found : String → Exn
  step_failed : String → ℕ → Exn → Exn
  budget_exceeded : String → Amount → Amount → Exn
  cancellation_requested : String → Exn
  ambiguous_step : String → Uuid → Exn
  lease_lost : String → Exn
  other : String → String → Exn

-- `type(exc).__name__`
unfoldable pub exn_name : Exn → String
exn_name (workflow_not_found m) = "WorkflowNotFound"
exn_name (tool_not_found m) = "ToolNotFound"
exn_name (step_failed k n c) = "StepFailedError"
exn_name (budget_exceeded d l o) = "BudgetExceededError"
exn_name (cancellation_requested m) = "CancellationRequested"
exn_name (ambiguous_step k t) = "AmbiguousStepError"
exn_name (lease_lost m) = "LeaseLost"
exn_name (other n m) = n

module _ (host : Host) where
  -- An integer or a float inside an f-string.
  abbrev number : Amount → String
  number (whole n) = show n
  number (fraction n) = host.show_float n

  -- `str(exc)`: what the constructor passes to `super().__init__`.
  unfoldable pub exn_str : Exn → String
  exn_str (workflow_not_found m) = m
  exn_str (tool_not_found m) = m
  exn_str (step_failed k n c) =
      "step "
      <> host.repr_str k
      <> " failed after "
      <> show n
      <> " attempt(s): "
      <> (exn_name c <> "(" <> host.repr_str (exn_str c) <> ")")
  exn_str (budget_exceeded d l o) =
      "budget exceeded on " <> d <> ": " <> number o <> " > " <> number l
  exn_str (cancellation_requested m) = m
  exn_str (ambiguous_step k t) =
      "step "
      <> host.repr_str k
      <> " (token "
      <> t
      <> ") started but never completed; "
      <> "outcome unknown and step is declared at-most-once"
  exn_str (lease_lost m) = m
  exn_str (other n m) = m

  -- `repr(exc)`
  unfoldable pub exn_repr : Exn → String
  exn_repr e = exn_name e <> "(" <> host.repr_str (exn_str e) <> ")"

-- `except (CancellationRequested, LeaseLost)`
unfoldable pub stops_step : Exn → Bool
stops_step (cancellation_requested m) = true
stops_step (lease_lost m) = true
stops_step _ = false
