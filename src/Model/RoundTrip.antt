-- ===== src/Model/RoundTrip.antt =====
-- What the columns `budget` and `usage` hold decodes to what was written.
use anchor_runtime.Base.{◌≡◌, refl, some, arith}
use anchor_runtime.Value.{get?, int}
use anchor_runtime.Model.Types.{
  Budget, Usage, budget_to_dict, budget_from_dict, usage_to_dict, usage_from_dict, total_tokens,
}

-- A budget written as a dict is read back unchanged, whichever ceilings are left out.
pub budget_round_trip : (b : Budget) → budget_from_dict (budget_to_dict b) ≡ b
unfolding budget_to_dict budget_from_dict
budget_round_trip b = ground arith

-- A usage written as a dict is read back unchanged, though the dict has the derived total too.
pub usage_round_trip :
    (u : Usage)
    → (usage_from_dict (usage_to_dict u) ≡ u)
      × (get? "total_tokens" (usage_to_dict u) ≡ some (int (total_tokens u)))
unfolding usage_to_dict usage_from_dict
usage_round_trip u = (refl, refl)
