-- ===== src/Provider/RoundTrip.antt =====
-- The log returns a model response verbatim.
use anchor_runtime.Base.{◌≡◌, refl, some, List, [], ◌∷◌}
use anchor_runtime.Provider.{
  ToolCall, ModelResponse, calls_to_items, calls_from_items, tool_call_to_dict, tool_call_from_dict,
  response_to_dict, response_from_dict,
}

calls_round_trip : (cs : List ToolCall) → calls_from_items (calls_to_items cs) ≡ some cs
unfolding tool_call_to_dict tool_call_from_dict
calls_round_trip [] = refl
calls_round_trip (c ∷ cs) = rw (calls_round_trip cs)

-- A response that was recorded is read back unchanged, its tool calls included.
pub response_round_trip : (r : ModelResponse) → response_from_dict (response_to_dict r) ≡ some r
unfolding response_to_dict response_from_dict
response_round_trip r = rw (calls_round_trip r.tool_calls)
