-- ===== src/Provider/Echo.antt =====
-- src/anchor/providers/echo.py: the scripted provider, whose next action follows from the messages.
pub mod Plan
use anchor_runtime.Base.{
  ℕ, zero, suc, ◌+◌, ◌/◌, String, ◌<>◌, show, Bool, true, false, Option, none, some, List, [], ◌∷◌,
  Assoc, lookup, or_else, ltb, ◌==◌, if◌then◌else◌,
}
use anchor_runtime.Value.{Value, str, obj, Dict, end, get?, merge}
use anchor_runtime.Errors.{other}
use anchor_runtime.Exec.{Reply, ok, raised, Exec, pure, ◌>>=◌, ◌>>◌}
use anchor_runtime.Machine.{Machine, M, pause}
use anchor_runtime.Provider.{ToolCall, ModelResponse}

-- `failures` is `_failures`.
pub record EchoProvider : Type 0 where
  pub plan : List String
  pub arguments : Assoc Dict
  pub final_text : String
  pub arguments_from_input : Bool
  pub latency_seconds : ℕ
  pub fail_first_n : ℕ
  pub failures : ℕ

abbrev text_of : Option Value → String
text_of (some (str s)) = s
text_of _ = ""

-- `m.get(name)`
abbrev pub attribute : String → Value → Option Value
attribute name (obj m) = get? name m
attribute name _ = none

abbrev pub has_role : String → Value → Bool
has_role role m = text_of (attribute "role" m) == role

-- The number of messages of the assistant.
unfoldable pub turn_of : List Value → ℕ
turn_of [] = 0
turn_of (m ∷ ms) = let rest = turn_of ms in if has_role "assistant" m then suc rest else rest

-- `self.plan[turn]`, if there is one.
unfoldable pub planned : ℕ → List String → Option String
planned turn [] = none
planned zero (name ∷ names) = some name
planned (suc turn) (name ∷ names) = planned turn names

-- `chars` is `len(str(…))`, and `loads` is `json.loads`, none where it raises.
module _ (chars : Value → ℕ) (loads : String → Option Value) where
  abbrev content_chars : Option Value → ℕ
  content_chars none = chars (str "")
  content_chars (some v) = chars v

  abbrev prompt_chars : List Value → ℕ
  prompt_chars [] = 0
  prompt_chars (m ∷ ms) = content_chars (attribute "content" m) + prompt_chars ms

  abbrev as_object : Option Value → Dict
  as_object (some (obj d)) = d
  as_object _ = end

  abbrev user_text : Bool → Option Value → Option String
  user_text true (some (str s)) = some s
  user_text _ _ = none

  -- `_input_arguments`
  abbrev pub input_arguments : List Value → Dict
  input_arguments [] = end
  input_arguments (m ∷ ms) =
      let rest = input_arguments ms in
      elim (user_text (has_role "user" m) (attribute "content" m)) [
        | none ↦ rest
        | some s ↦ as_object (loads s)
      ]

  abbrev call_arguments : EchoProvider → String → List Value → Dict
  call_arguments e name messages =
      merge (if e.arguments_from_input then input_arguments messages else end)
        (or_else (lookup name e.arguments) end)

  abbrev reply_to : EchoProvider → List Value → Option String → ModelResponse
  reply_to e messages (some name) = record {
    text = "calling " <> name;
    tool_calls =
        record {
          id = "call_" <> show (turn_of messages);
          name = name;
          arguments = call_arguments e name messages;
        }
        ∷ [];
    stop_reason = "tool_use";
    input_tokens = prompt_chars messages / 4;
    output_tokens = 12;
    cost_usd = 0;
    model = "echo";
  }
  reply_to e messages none = record {
    text = e.final_text;
    tool_calls = [];
    stop_reason = "end_turn";
    input_tokens = prompt_chars messages / 4;
    output_tokens = chars (str e.final_text) / 4 + 1;
    cost_usd = 0;
    model = "echo";
  }

  -- What `complete` answers once it does not fail.
  unfoldable pub respond : EchoProvider → List Value → ModelResponse
  unfolding turn_of
  respond e messages = reply_to e messages (planned (turn_of messages) e.plan)

  abbrev answer : EchoProvider → List Value → M ModelResponse
  answer e messages = do pause e.latency_seconds; pure (respond e messages)

  -- `complete`, on the provider and the machine.
  unfoldable pub complete : List Value → Exec (EchoProvider × Machine) ModelResponse
  unfolding respond
  complete messages (e, m) =
      if ltb e.failures e.fail_first_n
      then (
        raised (other "ConnectionError" ("simulated provider failure #" <> show (e.failures + 1))),
        (record e { failures = e.failures + 1 }, m),
      )
      else let (r, n) = answer e messages m in (r, (e, n))
