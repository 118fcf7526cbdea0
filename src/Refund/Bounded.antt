-- ===== src/Refund/Bounded.antt =====
-- The refunds in the table during a run of the example agent.
use anchor_runtime.Base.{
  ℕ, zero, suc, String, Bool, true, false, Option, none, some, List, [], ◌∷◌, map, ◌≡◌, subst,
  if◌then◌else◌, lookup, insert, Assoc, ◌==◌,
}
use anchor_runtime.Value.{Value, obj, Dict}
use anchor_runtime.Model.{Uuid}
use anchor_runtime.Errors.{Exn}
use anchor_runtime.Exec.{Reply, ok, raised, crashed, continue}
use anchor_runtime.Machine.{Machine, M}
use anchor_runtime.Machine.Keeps.{IsPeaceful, Holds, Any, Calm, bind-Keeps, if-Keeps}
use anchor_runtime.Callable.{Callable, invoke}
use anchor_runtime.Registry.{ToolSpec, tool, tool_schemas, register_tool}
use anchor_runtime.Provider.{ToolCall, wants_tools}
use anchor_runtime.Context.Guards.{Runtime}
use anchor_runtime.Context.Calls.{call_tool, model, token_of}
use anchor_runtime.Context.Keeps.{Holds-IsStable, named-Holds}
use anchor_runtime.Context.Preserves.Calls.{IsStableTool, call_tool-Preserves, model-Preserves}
use anchor_runtime.Refund.Tools.{
  Printer, refund_landed, lookup_payment, issue_refund, notify_customer,
}
use anchor_runtime.Refund.Specs.{lookup_tool, refund_tool, notify_tool}
use anchor_runtime.Refund.Agent.{
  max_turns, system, tool_names, run_calls, turns, refund_agent, tools, agent_runtime,
}
use anchor_runtime.Refund.Covered.{AllCovered, lookup-Calm, refund-Calm, notify-Calm}
use anchor_runtime.Refund.Landed.{landed-Calm, invoke-Calm}

module _ (py : Printer) (rt : Runtime) (delay : ℕ)
    (guard : (g : M Bool) → rt.lease_guard ≡ some g → Calm AllCovered g)
    (provider : (messages : List Value) (schemas : Option (List Value)) (prompt : Option String)
        (most : ℕ)
      → Calm AllCovered (rt.provider.complete messages schemas prompt most)) where
  abbrev IsCalm : ToolSpec → Type 0
  IsCalm spec =
      (args : Dict)
      → IsStableTool (Holds AllCovered Any) (agent_runtime py rt delay)
          (Holds-IsStable AllCovered (agent_runtime py rt delay)) (named-Holds AllCovered) guard
          spec args

  lookup_tool-IsCalm : IsCalm (lookup_tool py rt.host rt.run_id delay)
  lookup_tool-IsCalm args = record {
    body = λ token.
        invoke-Calm AllCovered (lookup_payment py) (some token) args
          (lookup-Calm py rt.run_id delay);
    answers = λ token f absent. cc absent;
  }

  Answers : Option Callable → Type 0
  Answers none = Unit
  Answers (some f) = (args : Dict) (token : Uuid) → Calm AllCovered (invoke f (some token) args)

  refund_tool-IsCalm : IsCalm (refund_tool py rt.host rt.run_id delay)
  unfolding Answers
  refund_tool-IsCalm args = record {
    body = λ token.
        invoke-Calm AllCovered (issue_refund py rt.run_id delay) (some token) args
          (refund-Calm py rt.run_id delay);
    answers = λ token f e.
        subst (λ o. Answers o) e
          (λ a t.
            invoke-Calm AllCovered (refund_landed rt.host) (some t) a
              (λ b. landed-Calm AllCovered rt.host (token_of (lookup "token" b))))
          args token;
  }

  notify_tool-IsCalm : IsCalm (notify_tool py rt.host rt.run_id delay)
  notify_tool-IsCalm args = record {
    body = λ token.
        invoke-Calm AllCovered (notify_customer py rt.run_id delay) (some token) args
          (notify-Calm py rt.run_id delay);
    answers = λ token f absent. cc absent;
  }

  AllCalm : Assoc ToolSpec → Type 0
  AllCalm [] = Unit
  AllCalm ((name, spec) ∷ rest) = IsCalm spec × AllCalm rest

  abbrev IsCalmOption : Option ToolSpec → Type 0
  IsCalmOption none = Unit
  IsCalmOption (some spec) = IsCalm spec

  if-IsCalmOption :
      (b : Bool) (o p : Option ToolSpec)
      → IsCalmOption o
      → IsCalmOption p
      → IsCalmOption (if b then o else p)
  if-IsCalmOption true o p h k = h
  if-IsCalmOption false o p h k = k

  lookup-IsCalmOption :
      (name : String) (d : Assoc ToolSpec) → AllCalm d → IsCalmOption (lookup name d)
  unfolding AllCalm lookup
  lookup-IsCalmOption name [] all = tt
  lookup-IsCalmOption name ((k, t) ∷ d) all =
      if-IsCalmOption (k == name) (some t) (lookup name d) all.0 (lookup-IsCalmOption name d all.1)

  tools-AllCalm : AllCalm (tools py rt delay).tools
  unfolding AllCalm register_tool lookup insert
  tools-AllCalm = (lookup_tool-IsCalm, (refund_tool-IsCalm, (notify_tool-IsCalm, tt)))

  abbrev IsCalmReply : Reply ToolSpec → Type 0
  IsCalmReply (ok spec) = IsCalm spec
  IsCalmReply _ = Unit

  found-IsCalmReply :
      (o : Option ToolSpec) (e : Exn)
      → IsCalmOption o
      → IsCalmReply (elim o [ none ↦ raised e | some spec ↦ ok spec ])
  found-IsCalmReply none e h = tt
  found-IsCalmReply (some spec) e h = h

  tool-IsCalm :
      (name : String) (spec : ToolSpec)
      → tool rt.host name (tools py rt delay) ≡ ok spec
      → IsCalm spec
  unfolding tool
  tool-IsCalm name spec found =
      subst (λ r. IsCalmReply r) found
        (found-IsCalmReply (lookup name (tools py rt delay).tools) _
          (lookup-IsCalmOption name (tools py rt delay).tools tools-AllCalm))

  run_calls-Calm :
      (cs : List ToolCall) (transcript results : List Value)
      → Calm AllCovered (run_calls py (agent_runtime py rt delay) cs transcript results)
  unfolding run_calls
  run_calls-Calm [] transcript results = λ s h. h
  run_calls-Calm (c ∷ cs) transcript results =
      bind-Keeps AllCovered Any (call_tool (agent_runtime py rt delay) c.name c.arguments) _
        (call_tool-Preserves (Holds AllCovered Any) (agent_runtime py rt delay)
          (Holds-IsStable AllCovered (agent_runtime py rt delay)) (named-Holds AllCovered) guard
          c.name c.arguments (λ spec found. tool-IsCalm c.name spec found c.arguments))
        (λ output. run_calls-Calm cs _ _)

  turns-Calm :
      (schemas : List Value) (left : ℕ) (messages transcript : List Value)
      → Calm AllCovered (turns py (agent_runtime py rt delay) schemas left messages transcript)
  unfolding turns
  turns-Calm schemas zero messages transcript = λ s h. h
  turns-Calm schemas (suc left) messages transcript =
      bind-Keeps AllCovered Any
        (model (agent_runtime py rt delay) "model" messages (some schemas) (some system) 1024) _
        (model-Preserves (Holds AllCovered Any) (agent_runtime py rt delay)
          (Holds-IsStable AllCovered (agent_runtime py rt delay)) (named-Holds AllCovered) guard
          "model" messages (some schemas) (some system) 1024
          (provider messages (some schemas) (some system) 1024))
        (λ response.
          if-Keeps AllCovered Any (wants_tools response) _ _
            (bind-Keeps AllCovered Any
              (run_calls py (agent_runtime py rt delay) response.tool_calls transcript []) _
              (run_calls-Calm response.tool_calls transcript [])
              (λ done. turns-Calm schemas left _ _))
            (λ s h. h))

  schemas-Calm :
      (r : Reply (List Dict)) (messages : List Value)
      → Calm AllCovered (λ s.
        continue r
          (λ schemas. turns py (agent_runtime py rt delay) (map obj schemas) max_turns messages [])
          s)
  schemas-Calm (ok schemas) messages = turns-Calm (map obj schemas) max_turns messages []
  schemas-Calm (raised e) messages = λ s h. h
  schemas-Calm crashed messages = λ s h. h

  pub agent-Calm :
      (payload : Dict) → Calm AllCovered (refund_agent py (agent_runtime py rt delay) payload)
  unfolding refund_agent
  agent-Calm payload m h =
      schemas-Calm (tool_schemas rt.host (some tool_names) (tools py rt delay)) _ m h

  -- Whatever the model asks for and wherever the process dies, every refund in the table is of a
  -- known payment, above nothing and no more than was captured of it, after a run of the agent, if
  -- that was so before and the others, the provider and the lease guard keep it so.
  refunds_covered :
      (payload : Dict) (m : Machine)
      → IsPeaceful AllCovered m.schedule
      → AllCovered m.db.effects
      → AllCovered (refund_agent py (agent_runtime py rt delay) payload m).1.db.effects
  refunds_covered payload m peaceful covered =
      (agent-Calm payload m
        (record { effects = covered; peaceful = peaceful; context = tt })).effects
