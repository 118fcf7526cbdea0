-- ===== src/Context/Calls.antt =====
-- The public methods of `RunContext`: `step`, `call_tool`, `model`, and the keys of `gather`.
pub mod Replayed
use anchor_runtime.Base.{
  ℕ, zero, suc, ◌+◌, String, ◌<>◌, show, Bool, true, false, Option, none, some, List, [], ◌∷◌,
  lookup,
}
use anchor_runtime.Value.{Value, int, str, arr, obj, Items, nil, cons, Dict, end, field}
use anchor_runtime.Model.{Uuid, StepIdempotency, at_least_once, idempotency_value}
use anchor_runtime.EventType.{tool_invoked, model_called}
use anchor_runtime.Errors.{other}
use anchor_runtime.Exec.{pure, raise, ◌>>=◌, ◌>>◌}
use anchor_runtime.Budget.{add_tool_call, add_model_usage}
use anchor_runtime.Machine.{M, modify_ctx}
use anchor_runtime.Callable.{Arg, token_arg, Callable, invoke}
use anchor_runtime.Registry.{ToolSpec, tool}
use anchor_runtime.Provider.{ToolCall, ModelResponse, response_to_dict, response_from_dict}
use anchor_runtime.Context.Replay.{next_key}
use anchor_runtime.Context.Guards.{Runtime, persist_usage, append}
use anchor_runtime.Context.Steps.{step_with_key}

-- `passthrough.get("token")`
abbrev pub token_of : Option Arg → Option Uuid
token_of (some (token_arg t)) = t
token_of _ = none

abbrev pub on_response : (ModelResponse → M Unit) → Option ModelResponse → M ModelResponse
on_response k none = raise (other "KeyError" "a recorded tool call has no id or name")
on_response k (some r) = do k r; pure r

abbrev pub dict_of : Value → Option ModelResponse
dict_of (obj d) = response_from_dict d
dict_of _ = none

abbrev call_names : List ToolCall → Items
call_names [] = nil
call_names (c ∷ cs) = cons (str c.name) (call_names cs)

module _ (rt : Runtime) where
  -- `RunContext.step`
  unfoldable pub step :
      String → Callable → StepIdempotency → Option Callable → Option ℕ → Dict → M Value
  step name fn idempotency verify max_attempts kwargs = do
    key ← next_key name
    done ← step_with_key rt key fn idempotency verify max_attempts kwargs
    pure done.0

  -- The closures `invoke` and `verify` of `call_tool`.
  abbrev pub tool_body : ToolSpec → Dict → Callable
  tool_body spec args = record {
    params = "passthrough" ∷ [];
    var_keyword = true;
    body = λ passthrough. (do
      modify_ctx (λ c. record c { usage = add_tool_call c.usage })
      invoke spec.fn (token_of (lookup "token" passthrough)) args);
  }

  abbrev pub tool_verify : Option Callable → Dict → Option Callable
  tool_verify none args = none
  tool_verify (some verify) args = some (record {
    params = "passthrough" ∷ [];
    var_keyword = true;
    body = λ passthrough. invoke verify (token_of (lookup "token" passthrough)) args;
  })

  abbrev pub invoked_payload : ToolSpec → Dict → Dict
  invoked_payload spec args = field "tool" (str spec.name) (
      field "arguments" (obj args)
        (field "idempotency" (str (idempotency_value spec.idempotency)) end))

  abbrev pub note_tool : String → ToolSpec → Dict → Bool → M Unit
  note_tool key spec args false = pure tt
  note_tool key spec args true =
      append rt tool_invoked (some key) (invoked_payload spec args) >> pure tt

  -- `RunContext.call_tool`
  unfoldable pub call_tool : String → Dict → M Value
  unfolding append
  call_tool name args = do
    spec ← (λ m. (tool rt.host name rt.registry, m))
    key ← next_key ("tool:" <> spec.name)
    done ←
        step_with_key rt key (tool_body spec args) spec.idempotency (tool_verify spec.verify args)
          none end
    note_tool key spec args done.1
    pure done.0

  -- The closure `invoke` of `model`.
  abbrev pub model_body : List Value → Option (List Value) → Option String → ℕ → Callable
  model_body messages tools system max_tokens = record {
    params = "_" ∷ [];
    var_keyword = true;
    body = λ ignored. (do
      response ← rt.provider.complete messages tools system max_tokens
      pure (obj (response_to_dict response)));
  }

  abbrev pub called_payload : ModelResponse → Dict
  called_payload r = field "model" (str r.model) (
      field "stop_reason" (str r.stop_reason) (
        field "input_tokens" (int r.input_tokens) (
          field "output_tokens" (int r.output_tokens)
            (field "tool_calls" (arr (call_names r.tool_calls)) end))))

  abbrev pub note_model : String → Bool → ModelResponse → M Unit
  note_model key false r = pure tt
  note_model key true r = do
    modify_ctx (λ c. record c {
      usage = add_model_usage r.input_tokens r.output_tokens r.cost_usd c.usage;
    })
    persist_usage rt
    append rt model_called (some key) (called_payload r)
    pure tt

  -- `RunContext.model`
  unfoldable pub model :
      String → List Value → Option (List Value) → Option String → ℕ → M ModelResponse
  unfolding append persist_usage
  model name messages tools system max_tokens = do
    key ← next_key name
    done ←
        step_with_key rt key (model_body messages tools system max_tokens) at_least_once none none
          end
    on_response (note_model key done.1) (dict_of done.0)

  -- `[self._next_key(f"{name}[{i}]") for i in range(len(factories))]`, which `gather` allocates
  -- before any branch runs; `left` of the branches have no key yet.
  abbrev pub gather_keys_from : String → ℕ → ℕ → M (List String)
  gather_keys_from name i zero = pure []
  gather_keys_from name i (suc left) = do
    key ← next_key (name <> "[" <> show i <> "]")
    rest ← gather_keys_from name (i + 1) left
    pure (key ∷ rest)

  unfoldable pub gather_keys : String → ℕ → M (List String)
  unfolding next_key
  gather_keys name branches = gather_keys_from name 0 branches
