-- ===== src/Provider.antt =====
-- src/anchor/providers/base.py: what a model provider takes and returns, and how a response is
-- written to the log and read back.
pub mod RoundTrip
pub mod Echo
pub mod Anthropic
pub mod Choice
use anchor_runtime.Base.{ℕ, ◌*◌, String, Bool, true, false, Option, none, some, List, [], ◌∷◌, ◌==◌}
use anchor_runtime.Value.{
  Value, null, int, float, str, arr, obj, Items, nil, cons, Dict, end, field, get?,
}
use anchor_runtime.Machine.{M}

pub record ToolCall : Type 0 where
  pub id : String
  pub name : String
  pub arguments : Dict

unfoldable pub tool_call_to_dict : ToolCall → Dict
tool_call_to_dict c =
    field "id" (str c.id) (field "name" (str c.name) (field "arguments" (obj c.arguments) end))

abbrev as_dict : Option Value → Dict
as_dict (some (obj d)) = d
as_dict _ = end

abbrev as_call : Option Value → Option Value → Dict → Option ToolCall
as_call (some (str i)) (some (str n)) args = some (record { id = i; name = n; arguments = args })
as_call _ _ args = none

-- `none` where `raw["id"]` or `raw["name"]` fails.
unfoldable pub tool_call_from_dict : Dict → Option ToolCall
tool_call_from_dict raw = as_call (get? "id" raw) (get? "name" raw) (as_dict (get? "arguments" raw))

pub record ModelResponse : Type 0 where
  pub text : String
  pub tool_calls : List ToolCall
  pub stop_reason : String
  pub input_tokens : ℕ
  pub output_tokens : ℕ
  pub cost_usd : ℕ
  pub model : String

unfoldable pub wants_tools : ModelResponse → Bool
wants_tools r = elim r.tool_calls [ [] ↦ false | c ∷ cs ↦ true ]

abbrev pub calls_to_items : List ToolCall → Items
calls_to_items [] = nil
calls_to_items (c ∷ cs) = cons (obj (tool_call_to_dict c)) (calls_to_items cs)

unfoldable pub response_to_dict : ModelResponse → Dict
response_to_dict r = field "text" (str r.text) (
    field "tool_calls" (arr (calls_to_items r.tool_calls)) (
      field "stop_reason" (str r.stop_reason) (
        field "input_tokens" (int r.input_tokens) (
          field "output_tokens" (int r.output_tokens)
            (field "cost_usd" (float r.cost_usd) (field "model" (str r.model) end))))))

abbrev str_or : String → Option Value → String
str_or d (some (str s)) = s
str_or d _ = d

abbrev count_or : ℕ → Option Value → ℕ
count_or d (some (int n)) = n
count_or d _ = d

abbrev amount_or : ℕ → Option Value → ℕ
amount_or d (some (float n)) = n
amount_or d (some (int n)) = n * 1000000
amount_or d _ = d

abbrev call_of : Value → Option ToolCall
call_of (obj d) = tool_call_from_dict d
call_of _ = none

abbrev add_call : Option ToolCall → Option (List ToolCall) → Option (List ToolCall)
add_call (some c) (some cs) = some (c ∷ cs)
add_call _ _ = none

abbrev pub calls_from_items : Items → Option (List ToolCall)
calls_from_items nil = some []
calls_from_items (cons v vs) = add_call (call_of v) (calls_from_items vs)

abbrev calls_of : Option Value → Option (List ToolCall)
calls_of none = some []
calls_of (some (arr vs)) = calls_from_items vs
calls_of (some _) = none

abbrev response_with : Dict → Option (List ToolCall) → Option ModelResponse
response_with raw none = none
response_with raw (some calls) = some (record {
  text = str_or "" (get? "text" raw);
  tool_calls = calls;
  stop_reason = str_or "end_turn" (get? "stop_reason" raw);
  input_tokens = count_or 0 (get? "input_tokens" raw);
  output_tokens = count_or 0 (get? "output_tokens" raw);
  cost_usd = amount_or 0 (get? "cost_usd" raw);
  model = str_or "unknown" (get? "model" raw);
})

-- `none` where a tool call cannot be read.
unfoldable pub response_from_dict : Dict → Option ModelResponse
response_from_dict raw = response_with raw (calls_of (get? "tool_calls" raw))

-- What the runtime asks of a provider: messages, tool schemas, system prompt, token limit.
pub record ModelProvider : Type 0 where
  pub name : String
  pub complete : List Value → Option (List Value) → Option String → ℕ → M ModelResponse
