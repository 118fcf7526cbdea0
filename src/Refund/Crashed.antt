-- ===== src/Refund/Crashed.antt =====
-- The refund tool after a crash within it.
use anchor_runtime.Base.{ℕ, ◌+◌, String, Bool, Option, none, some, List, ◌≡◌, refl, subst, lookup}
use anchor_runtime.Value.{Value, Dict, end}
use anchor_runtime.Model.{Uuid}
use anchor_runtime.Exec.{Reply, ok, raised, crashed, pure, continue, ◌>>◌}
use anchor_runtime.Postgres.Tables.{EffectRow}
use anchor_runtime.Machine.{Machine, M}
use anchor_runtime.Machine.Keeps.{IsPeaceful, Holds, Keeps, Any, Calm, bind-Keeps}
use anchor_runtime.Callable.{Callable, invoke}
use anchor_runtime.Registry.{ToolSpec, tool}
use anchor_runtime.Context.Replay.{next_key, step_key}
use anchor_runtime.Context.Replay.Keys.{ordinal, after_key}
use anchor_runtime.Context.Guards.{Runtime}
use anchor_runtime.Context.Calls.{call_tool, tool_body, tool_verify, note_tool, token_of}
use anchor_runtime.Context.Keeps.{Holds-IsStable}
use anchor_runtime.Context.Preserves.Calls.{note_tool-Preserves}
use anchor_runtime.Context.Keeps.Crashed.{IsOpen, open_step-Holds}
use anchor_runtime.Refund.Tools.{Printer, refund_landed}
use anchor_runtime.Refund.Specs.{refund_tool}
use anchor_runtime.Refund.Landed.{landed-Calm, invoke-Calm}

module _ (E : List EffectRow → Type 0) (py : Printer) (rt : Runtime) (delay : ℕ) (args : Dict) where
  abbrev spec : ToolSpec
  spec = refund_tool py rt.host rt.run_id delay

  abbrev IsAnswered : Uuid → Option Callable → Type 0
  IsAnswered token none = Unit
  IsAnswered token (some f) = Calm E (invoke f (some token) end)

  landed : (token : Uuid) → IsAnswered token (tool_verify rt spec.verify args)
  unfolding invoke lookup
  landed token =
      invoke-Calm E (refund_landed rt.host) (some token) args
        (λ a. landed-Calm E rt.host (token_of (lookup "token" a)))

  verify-Calm :
      (token : Uuid) (f : Callable)
      → tool_verify rt spec.verify args ≡ some f
      → Calm E (invoke f (some token) end)
  verify-Calm token f e = subst (λ o. IsAnswered token o) e (landed token)

  -- The key of the next call of the tool in this attempt.
  abbrev pub refund_key : Machine → String
  refund_key m = step_key "tool:issue_refund" (ordinal "tool:issue_refund" m + 1)

  noted-Holds :
      (key : String) (r : Reply (Value × Bool)) (s : Machine)
      → Holds E Any s
      → Holds E Any (continue r (λ done. (do note_tool rt key spec args done.1; pure done.0)) s).1
  noted-Holds key (ok done) s h =
      bind-Keeps E Any (note_tool rt key spec args done.1) _
        (note_tool-Preserves (Holds E Any) rt args spec key (Holds-IsStable E rt key) done.1)
        (λ _ t k. k) s h
  noted-Holds key (raised e) s h = h
  noted-Holds key crashed s h = h

  -- If the last attempt started this refund and the log does not show its end, calling the tool again
  -- pays nothing: a property of the side effects that the lease guard and the others keep is kept,
  -- whether the call returns the refund that the verifier finds, parks the run, raises or dies.
  pub no_second_refund :
      ((key : String) (g : M Bool) → rt.lease_guard ≡ some g → Keeps E (IsOpen key) g)
      → (m : Machine) (t : Value) → tool rt.host "issue_refund" rt.registry ≡ ok spec
      → IsPeaceful E m.schedule
      → lookup (refund_key m) m.ctx.completed ≡ none
      → lookup (refund_key m) m.ctx.unresolved ≡ some t
      → E m.db.effects
      → E (call_tool rt "issue_refund" args m).1.db.effects
  unfolding call_tool next_key
  no_second_refund guard m t known peaceful pending begun e = rw known (
      (noted-Holds (refund_key m) _ _ (
        open_step-Holds E rt (refund_key m) (tool_body rt spec args)
          (tool_verify rt spec.verify args) none end (guard (refund_key m)) (verify-Calm _)
          (after_key "tool:issue_refund" m)
          (record {
            effects = e;
            peaceful = peaceful;
            context = record { pending = pending; begun = rw begun refl };
          }))).effects)
