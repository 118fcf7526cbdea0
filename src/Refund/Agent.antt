-- ===== src/Refund/Agent.antt =====
-- The workflow `refund_agent` of src/anchor/examples/refund_agent.py, and the names that the module
-- registers.
use anchor_runtime.Base.{ℕ, zero, suc, String, some, List, [], ◌∷◌, ◌++◌, map, ◌==◌, if◌then◌else◌}
use anchor_runtime.Value.{Value, int, str, arr, obj, arr_of, Dict, end, field}
use anchor_runtime.Exec.{pure, gets, ◌>>=◌}
use anchor_runtime.Machine.{M}
use anchor_runtime.Registry
use anchor_runtime.Registry.{Registry, WorkflowFn, register_tool, register_workflow, tool_schemas}
use anchor_runtime.Provider.{ToolCall, ModelResponse, wants_tools}
use anchor_runtime.Context.Guards.{Runtime}
use anchor_runtime.Context.Calls.{call_tool, model}
use anchor_runtime.Refund.Tools.{Printer}
use anchor_runtime.Refund.Specs.{lookup_tool, refund_tool, notify_tool}

-- MAX_TURNS
abbrev pub max_turns : ℕ
max_turns = 8

-- SYSTEM
abbrev pub system : String
system =
    "You are a payments support agent. Look up the payment before refunding it. Refund only the amount that was actually captured, then notify the customer. When you are finished, reply with a one-line summary and no tool calls."

abbrev pub tool_names : List String
tool_names = "lookup_payment" ∷ "issue_refund" ∷ "notify_customer" ∷ []

abbrev pub user_message : Value → Value
user_message content = obj (field "role" (str "user") (field "content" content end))

abbrev tool_use : ToolCall → Value
tool_use c = obj (
    field "type" (str "tool_use")
      (field "id" (str c.id) (field "name" (str c.name) (field "input" (obj c.arguments) end))))

abbrev text_blocks : String → List Value
text_blocks text =
    if text == "" then [] else obj (field "type" (str "text") (field "text" (str text) end)) ∷ []

abbrev pub assistant_message : ModelResponse → Value
assistant_message r = obj (
    field "role" (str "assistant")
      (field "content" (arr (arr_of (text_blocks r.text ++ map tool_use r.tool_calls))) end))

-- What a run returns: the summary, the counts of its steps, and the calls it made.
abbrev pub summary : String → List Value → M Value
summary text transcript = gets (λ m. obj (
    field "summary" (str text) (
      field "steps_executed" (int m.ctx.executed_steps) (
        field "steps_replayed" (int m.ctx.replayed_steps)
          (field "transcript" (arr (arr_of transcript)) end)))))

module _ (py : Printer) (rt : Runtime) where
  abbrev pub entry : ToolCall → Value → Value
  entry c output = obj (field "tool" (str c.name) (field "output" output end))

  abbrev pub tool_result : ToolCall → Value → Value
  tool_result c output = obj (
      field "type" (str "tool_result")
        (field "tool_use_id" (str c.id) (field "content" (str (py.dumps output)) end)))

  -- The calls of one response, with the transcript and the results so far.
  unfoldable pub run_calls : List ToolCall → List Value → List Value → M (List Value × List Value)
  unfolding call_tool
  run_calls [] transcript results = pure (transcript, results)
  run_calls (c ∷ cs) transcript results = do
    output ← call_tool rt c.name c.arguments
    run_calls cs (transcript ++ entry c output ∷ []) (results ++ tool_result c output ∷ [])

  -- The loop over the turns, with `left` of them to go.
  unfoldable pub turns : List Value → ℕ → List Value → List Value → M Value
  unfolding model run_calls wants_tools
  turns schemas zero messages transcript =
      summary "turn limit reached without a final answer" transcript
  turns schemas (suc left) messages transcript = do
    response ← model rt "model" messages (some schemas) (some system) 1024
    if wants_tools response
        then (do
          done ← run_calls response.tool_calls transcript []
          turns schemas left
              (messages ++ assistant_message response ∷ user_message (arr (arr_of done.1)) ∷ [])
              done.0)
        else summary response.text transcript

  unfoldable pub refund_agent : Dict → M Value
  unfolding turns
  refund_agent payload = do
    schemas ← (λ m. (tool_schemas rt.host (some tool_names) rt.registry, m))
    turns (map obj schemas) max_turns (user_message (str (py.dumps (obj payload))) ∷ []) []

-- The registry after the import of the module.
module _ (py : Printer) (rt : Runtime) (delay : ℕ) where
  abbrev pub tools : Registry
  tools =
      (register_tool rt.host (notify_tool py rt.host rt.run_id delay)
        (register_tool rt.host (refund_tool py rt.host rt.run_id delay)
          (register_tool rt.host (lookup_tool py rt.host rt.run_id delay) Registry.empty).1).1).1

  -- The runtime of an attempt, with these tools.
  abbrev pub agent_runtime : Runtime
  agent_runtime = record rt { registry = tools }

  abbrev pub workflow_fn : WorkflowFn
  workflow_fn = record { ident = 1; run = refund_agent py agent_runtime }

  abbrev pub imported : Registry
  imported = (register_workflow rt.host "refund_agent" workflow_fn tools).1
