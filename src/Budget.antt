-- ===== src/Budget.antt =====
-- src/anchor/budget.py: `BudgetTracker`. Wall clock and cost are in millionths.
pub mod Ceilings
use anchor_runtime.Base.{
  ℕ, suc, ◌+◌, ◌-◌, ◌*◌, ◌/◌, ◌%◌, String, Bool, true, false, Option, none, some, ltb, leb, eqb,
  if◌then◌else◌, ◌&&◌, ◌||◌,
}
use anchor_runtime.Value.{float, Dict, set}
use anchor_runtime.Model.{Time, Budget, Usage, total_tokens, usage_to_dict}
use anchor_runtime.Errors.{Exn, budget_exceeded, whole, fraction}

pub record BudgetTracker : Type 0 where
  pub budget : Budget
  pub usage : Usage
  pub run_created_at : Time

unfoldable pub elapsed_seconds : BudgetTracker → Time → ℕ
elapsed_seconds t now = now - t.run_created_at

-- `round(x, 3)` of a number of millionths, ties to even.
unfoldable pub round3 : ℕ → ℕ
round3 x =
    let q = x / 1000 in
    let r = x % 1000 in
    if ltb r 500 || (eqb r 500 && eqb (q % 2) 0) then q * 1000 else (q + 1) * 1000

-- One `if` of `check`: the ceiling is set and breached.
abbrev over : Option ℕ → ℕ → Bool
over none x = false
over (some m) x = ltb m x

abbrev reached : Option ℕ → ℕ → Bool
reached none x = false
reached (some m) x = leb m x

abbrev limit_of : Option ℕ → ℕ
limit_of none = 0
limit_of (some m) = m

-- The exception that `check` raises at the time `now`, or `none`. Rounding the cost to six
-- places is the identity on millionths.
unfoldable pub check : BudgetTracker → Time → Option Exn
unfolding elapsed_seconds
check t now =
    let b = t.budget in
    let u = t.usage in
    if over b.max_wall_seconds (elapsed_seconds t now)
    then some (
        budget_exceeded "wall_seconds" (fraction (limit_of b.max_wall_seconds))
          (fraction (round3 (elapsed_seconds t now))))
    else if over b.max_tokens (total_tokens u)
    then some (budget_exceeded "tokens" (whole (limit_of b.max_tokens)) (whole (total_tokens u)))
    else if reached b.max_tool_calls u.tool_calls
    then some
        (budget_exceeded "tool_calls" (whole (limit_of b.max_tool_calls)) (whole u.tool_calls))
    else if reached b.max_model_calls u.model_calls
    then some
        (budget_exceeded "model_calls" (whole (limit_of b.max_model_calls)) (whole u.model_calls))
    else if over b.max_cost_usd u.cost_usd
    then some
        (budget_exceeded "cost_usd" (fraction (limit_of b.max_cost_usd)) (fraction u.cost_usd))
    else none

unfoldable pub add_model_usage : ℕ → ℕ → ℕ → Usage → Usage
add_model_usage inp out cost u = record u {
  input_tokens = u.input_tokens + inp;
  output_tokens = u.output_tokens + out;
  cost_usd = u.cost_usd + cost;
  model_calls = u.model_calls + 1;
}

unfoldable pub add_tool_call : Usage → Usage
add_tool_call u = record u { tool_calls = u.tool_calls + 1 }

unfoldable pub snapshot : BudgetTracker → Time → Dict
unfolding elapsed_seconds
snapshot t now =
    set "elapsed_seconds" (float (round3 (elapsed_seconds t now))) (usage_to_dict t.usage)
