-- ===== src/Context/Preserves/Calls.antt =====
-- Invariants of the machine in the calls of a model and of a tool.
use anchor_runtime.Base.{
  ℕ, String, ◌<>◌, Bool, true, false, Option, none, some, List, ◌≡◌, refl, subst, lookup,
}
use anchor_runtime.Value.{Value, Dict, end}
use anchor_runtime.Model.{Uuid, at_least_once}
use anchor_runtime.EventType.{model_called}
use anchor_runtime.Exec.{Reply, ok, raised, crashed, continue, pure, ◌>>=◌, ◌>>◌}
use anchor_runtime.Machine.{Machine, M}
use anchor_runtime.Machine.Preserves.{Preserves, bind-Preserves}
use anchor_runtime.Callable.{Callable, invoke}
use anchor_runtime.Registry.{ToolSpec, tool}
use anchor_runtime.Provider.{ModelResponse}
use anchor_runtime.Context.Replay.{next_key}
use anchor_runtime.Context.Guards.{Runtime, append, persist_usage}
use anchor_runtime.Context.Steps.{step_with_key}
use anchor_runtime.Context.Calls.{
  call_tool, model, model_body, tool_body, tool_verify, note_tool, note_model, called_payload,
  on_response, dict_of,
}
use anchor_runtime.Context.Preserves.{IsStable, then_written, then_counted}
use anchor_runtime.Context.Preserves.Steps.{step-Preserves}

-- `call_tool` once the tool is known.
module _ (rt : Runtime) (args : Dict) (spec : ToolSpec) where
  abbrev pub use_tool : M Value
  use_tool = do
    key ← next_key ("tool:" <> spec.name)
    done ←
        step_with_key rt key (tool_body rt spec args) spec.idempotency
          (tool_verify rt spec.verify args) none end
    note_tool rt key spec args done.1
    pure done.0

module _ (I : Machine → Type 0) (rt : Runtime) (args : Dict) (spec : ToolSpec) (key : String)
    (st : IsStable rt I key) where
  pub note_tool-Preserves : (b : Bool) → Preserves I (note_tool rt key spec args b)
  note_tool-Preserves false = λ s h. h
  note_tool-Preserves true = then_written I rt key st _ _ _ _ refl (λ _ s h. h)

module _ (I : Machine → Type 0) (rt : Runtime) (st : (key : String) → IsStable rt I key)
    (named : (name : String) → Preserves I (next_key name))
    (guard : (g : M Bool) → rt.lease_guard ≡ some g → Preserves I g) where
  module _ (name : String) (messages : List Value) (tools : Option (List Value))
      (system : Option String) (max_tokens : ℕ)
      (provider : Preserves I (rt.provider.complete messages tools system max_tokens)) where
    answer-Preserves :
        (token : Uuid)
        → Preserves I (invoke (model_body rt messages tools system max_tokens) (some token) end)
    unfolding invoke
    answer-Preserves token =
        bind-Preserves I (rt.provider.complete messages tools system max_tokens) _ provider
          (λ _ s h. h)

    note-Preserves :
        (key : String) (b : Bool) (r : ModelResponse) → Preserves I (note_model rt key b r)
    note-Preserves key false r = λ s h. h
    note-Preserves key true r =
        then_counted I rt key (st key) _
          (persist_usage rt >> (append rt model_called (some key) (called_payload rt r) >> pure tt))
          (record { completed = λ c. refl; ordinals = λ c. refl })
          (bind-Preserves I (persist_usage rt) _ (st key).saved
            (λ _. then_written I rt key (st key) _ _ _ _ refl (λ _ s h. h)))

    response-Preserves :
        (k : ModelResponse → M Unit) (o : Option ModelResponse)
        → ((r : ModelResponse) → Preserves I (k r))
        → Preserves I (on_response k o)
    response-Preserves k none notes = λ s h. h
    response-Preserves k (some r) notes = bind-Preserves I (k r) _ (notes r) (λ _ s h. h)

    pub model-Preserves : Preserves I (model rt name messages tools system max_tokens)
    unfolding model
    model-Preserves = bind-Preserves I (next_key name) _ (named name) (λ key.
        bind-Preserves I
          (step_with_key rt key (model_body rt messages tools system max_tokens) at_least_once none
            none end)
          _
          (step-Preserves I rt key (st key) (model_body rt messages tools system max_tokens)
            at_least_once none none end guard answer-Preserves (λ token f absent. cc absent))
          (λ done.
            response-Preserves (note_model rt key done.1) (dict_of done.0)
              (note-Preserves key done.1)))

  module _ (args : Dict) (spec : ToolSpec)
      (body : (token : Uuid) → Preserves I (invoke spec.fn (some token) args))
      (answers : (token : Uuid) (f : Callable)
        → spec.verify ≡ some f
        → Preserves I (invoke f (some token) args)) where
    body-Preserves : (token : Uuid) → Preserves I (invoke (tool_body rt spec args) (some token) end)
    unfolding invoke lookup
    body-Preserves token =
        then_counted I rt token (st token) _ (invoke spec.fn (some token) args)
          (record { completed = λ c. refl; ordinals = λ c. refl }) (body token)

    abbrev IsAnswered : Uuid → Option Callable → Type 0
    IsAnswered token none = Unit
    IsAnswered token (some f) = Preserves I (invoke f (some token) end)

    verify-Preserves :
        (v : Option Callable)
        → ((token : Uuid) (f : Callable) → v ≡ some f → Preserves I (invoke f (some token) args))
        → (token : Uuid) (f : Callable) → tool_verify rt v args ≡ some f
        → Preserves I (invoke f (some token) end)
    unfolding invoke lookup
    verify-Preserves none calm token f e = cc e
    verify-Preserves (some v) calm token f e = subst (λ o. IsAnswered token o) e (calm token v refl)

    use_tool-Preserves : Preserves I (use_tool rt args spec)
    use_tool-Preserves =
        bind-Preserves I (next_key ("tool:" <> spec.name)) _ (named ("tool:" <> spec.name)) (λ key.
          bind-Preserves I
            (step_with_key rt key (tool_body rt spec args) spec.idempotency
              (tool_verify rt spec.verify args) none end)
            _
            (step-Preserves I rt key (st key) (tool_body rt spec args) spec.idempotency
              (tool_verify rt spec.verify args) none end guard body-Preserves
              (verify-Preserves spec.verify answers))
            (λ done.
              bind-Preserves I (note_tool rt key spec args done.1) _
                (note_tool-Preserves I rt args spec key (st key) done.1) (λ _ s h. h)))

  -- The tool with these arguments keeps the invariant, and so does its verifier.
  pub record IsStableTool (spec : ToolSpec) (args : Dict) : Type 0 where
    pub body : (token : Uuid) → Preserves I (invoke spec.fn (some token) args)
    pub answers :
        (token : Uuid) (f : Callable)
        → spec.verify ≡ some f
        → Preserves I (invoke f (some token) args)

  chosen-Preserves :
      (args : Dict) (r : Reply ToolSpec)
      → ((spec : ToolSpec) → r ≡ ok spec → IsStableTool spec args)
      → Preserves I (λ s. continue r (λ spec. use_tool rt args spec) s)
  chosen-Preserves args (ok spec) tools =
      use_tool-Preserves args spec (tools spec refl).body (tools spec refl).answers
  chosen-Preserves args (raised e) tools = λ s h. h
  chosen-Preserves args crashed tools = λ s h. h

  pub call_tool-Preserves :
      (name : String) (args : Dict)
      → ((spec : ToolSpec) → tool rt.host name rt.registry ≡ ok spec → IsStableTool spec args)
      → Preserves I (call_tool rt name args)
  unfolding call_tool
  call_tool-Preserves name args tools = chosen-Preserves args (tool rt.host name rt.registry) tools
