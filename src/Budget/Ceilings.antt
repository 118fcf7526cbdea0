-- ===== src/Budget/Ceilings.antt =====
-- What `check` decides: the ceilings are kept, or the first breached one is named.
use anchor_runtime.Base.{ℕ, ◌≤◌, ◌<◌, ◌-◌, ◌≡◌, ◌↔◌, Option, none, some, arith}
use anchor_runtime.Model.{Time, Budget, Usage, total_tokens}
use anchor_runtime.Budget.{BudgetTracker, elapsed_seconds, check}

-- `x` may still be `m`, or must stay below it.
abbrev pub AtMost : Option ℕ → ℕ → Type 0
AtMost none x = Unit
AtMost (some m) x = x ≤ m

abbrev pub Below : Option ℕ → ℕ → Type 0
Below none x = Unit
Below (some m) x = x < m

-- Every declared ceiling holds: calls must have room for one more, the others may be full.
pub record IsWithin (b : Budget) (u : Usage) (elapsed : ℕ) : Type 0 where
  pub wall : AtMost b.max_wall_seconds elapsed
  pub tokens : AtMost b.max_tokens (total_tokens u)
  pub tools : Below b.max_tool_calls u.tool_calls
  pub models : Below b.max_model_calls u.model_calls
  pub cost : AtMost b.max_cost_usd u.cost_usd

check-none :
    (t : BudgetTracker) (now : Time)
    → IsWithin t.budget t.usage (elapsed_seconds t now)
    → check t now ≡ none
unfolding check
check-none t now h = ground arith

none-check :
    (t : BudgetTracker) (now : Time)
    → check t now ≡ none
    → IsWithin t.budget t.usage (elapsed_seconds t now)
unfolding check
none-check t now h = ground arith

-- `check` lets a step through exactly when every declared ceiling holds.
pub check_iff :
    (t : BudgetTracker) (now : Time)
    → (check t now ≡ none) ↔ IsWithin t.budget t.usage (elapsed_seconds t now)
check_iff t now = (none-check t now, check-none t now)

-- One usage is at least another in every dimension.
pub record Grows (u v : Usage) : Type 0 where
  pub inputs : u.input_tokens ≤ v.input_tokens
  pub outputs : u.output_tokens ≤ v.output_tokens
  pub tools : u.tool_calls ≤ v.tool_calls
  pub models : u.model_calls ≤ v.model_calls
  pub cost : u.cost_usd ≤ v.cost_usd

AtMost-mono : (o : Option ℕ) (x y : ℕ) → x ≤ y → AtMost o y → AtMost o x
AtMost-mono none x y h a = tt
AtMost-mono (some m) x y h a = omega arith

Below-mono : (o : Option ℕ) (x y : ℕ) → x ≤ y → Below o y → Below o x
Below-mono none x y h a = tt
Below-mono (some m) x y h a = omega arith

IsWithin-mono :
    (b : Budget) (u v : Usage) (s t : ℕ) → Grows u v → s ≤ t → IsWithin b v t → IsWithin b u s
IsWithin-mono b u v s t g h w = record {
  wall = AtMost-mono b.max_wall_seconds s t h w.wall;
  tokens = AtMost-mono b.max_tokens (total_tokens u) (total_tokens v) (omega arith) w.tokens;
  tools = Below-mono b.max_tool_calls u.tool_calls v.tool_calls g.tools w.tools;
  models = Below-mono b.max_model_calls u.model_calls v.model_calls g.models w.models;
  cost = AtMost-mono b.max_cost_usd u.cost_usd v.cost_usd g.cost w.cost;
}

-- Once a budget lets nothing through, it never does again: with more usage and at a later time
-- `check` passes only if it passed before.
pub check_monotone :
    (b : Budget) (u v : Usage) (created now later : Time)
    → Grows u v
    → now ≤ later
    → check (record { budget = b; usage = v; run_created_at = created }) later ≡ none
    → check (record { budget = b; usage = u; run_created_at = created }) now ≡ none
unfolding elapsed_seconds
check_monotone b u v created now later g h e =
    check-none _ now
      (IsWithin-mono b u v (now - created) (later - created) g (omega arith) (none-check _ later e))
