-- ===== src/Context/Keeps/Crashed.antt =====
-- A step that is at most once, and that an earlier attempt may have run.
use anchor_runtime.Base.{
  ℕ, String, Bool, true, false, Option, none, some, List, ◌≡◌, refl, lookup, is_some, if◌then◌else◌,
}
use anchor_runtime.Value.{Value, is_null, str, Dict, end, field}
use anchor_runtime.Model.{Uuid, at_most_once}
use anchor_runtime.EventType.{step_started, step_token}
use anchor_runtime.Exec.{Reply, ok, raised, crashed, continue, ◌>>=◌, ◌>>◌}
use anchor_runtime.Exec.Laws.{Yields, Yields-then, Yields-if}
use anchor_runtime.Postgres.Tables.{EffectRow}
use anchor_runtime.Machine.{Context, Machine, M}
use anchor_runtime.Machine.Keeps.{Holds, Keeps, Any, Calm}
use anchor_runtime.Callable.{Callable, invoke}
use anchor_runtime.Context.Guards.{Runtime, checkpoint_guards, append}
use anchor_runtime.Context.Steps.{
  step_with_key, pending_step, resolve_crash_window, recovered, unless_resolved, ensure_json,
  execute_step,
}
use anchor_runtime.Context.Preserves.{checkpoint_guards-Preserves}
use anchor_runtime.Context.Keeps.{cancel-Keeps, Holds-IsStable}
use anchor_runtime.Context.Preserves.Steps.{window-Preserves}

-- The log shows the start of the step and not its end.
pub record IsOpen (key : String) (c : Context) : Type 0 where
  pub pending : lookup key c.completed ≡ none
  pub begun : is_some (lookup key c.unresolved) ≡ true

module _ (E : List EffectRow → Type 0) (rt : Runtime) (key : String) (fn : Callable)
    (verify : Option Callable) (max_attempts : Option ℕ) (kwargs : Dict) where
  abbrev HasOutcome : Option Value → Machine → Type 0
  HasOutcome o s = is_some o ≡ true

  abbrev token : Uuid
  token = step_token rt.host rt.run_id key

  recovered-Yields :
      (v : Value) (s : Machine)
      → Yields HasOutcome (recovered rt key v s).0 (recovered rt key v s).1
  recovered-Yields v s =
      Yields-then HasOutcome (ensure_json rt v key) _ s
        (λ r t. Yields-then HasOutcome (append rt _ _ _) _ t (λ _ u. refl))

  window-Yields :
      (f : Option Callable) (s : Machine)
      → Yields HasOutcome
          (resolve_crash_window rt key token at_most_once f kwargs s).0
          (resolve_crash_window rt key token at_most_once f kwargs s).1
  unfolding resolve_crash_window
  window-Yields none s = tt
  window-Yields (some f) s =
      Yields-then HasOutcome (invoke f (some token) kwargs) _ s
        (λ v t. Yields-if HasOutcome (is_null v) _ (recovered rt key v) t tt (recovered-Yields v t))

  abbrev run_body : M (Value × Bool)
  run_body = execute_step rt key fn token kwargs max_attempts

  -- With an outcome, the body is not run.
  resolved-Holds :
      (r : Reply (Option Value)) (s : Machine)
      → Yields HasOutcome r s
      → Holds E Any s
      → Holds E Any (continue r (λ o. unless_resolved rt o run_body) s).1
  resolved-Holds (ok none) s wrong h = cc wrong
  resolved-Holds (ok (some v)) s right h = h
  resolved-Holds (raised e) s right h = h
  resolved-Holds crashed s right h = h

  module _ (guard : (g : M Bool) → rt.lease_guard ≡ some g → Keeps E (IsOpen key) g)
      (answers : (f : Callable) → verify ≡ some f → Calm E (invoke f (some token) kwargs)) where
    window-Holds :
        (s : Machine)
        → Holds E Any s
        → Holds E Any
            (((resolve_crash_window rt key token at_most_once verify kwargs)
                >>= (λ o. unless_resolved rt o run_body))
              s).1
    window-Holds s h =
        resolved-Holds (resolve_crash_window rt key token at_most_once verify kwargs s).0 _
          (window-Yields verify s)
          (window-Preserves (Holds E Any) rt key (Holds-IsStable E rt key) token at_most_once verify
            kwargs answers s h)

    begun-Holds :
        (b : Bool) (s : Machine)
        → b ≡ true
        → Holds E Any s
        → Holds E Any
            ((if b
                then (do
                  resolved ← resolve_crash_window rt key token at_most_once verify kwargs
                  unless_resolved rt resolved run_body)
                else (do
                  append rt step_started (some key) (field "token" (str token) end)
                  run_body))
              s).1
    begun-Holds true s right h = window-Holds s h
    begun-Holds false s wrong h = cc wrong

    guarded-Holds :
        (r : Reply Unit) (s : Machine)
        → Holds E (IsOpen key) s
        → Holds E Any
            (continue r
              (λ _ t.
                (if is_some (lookup key t.ctx.unresolved)
                    then (do
                      resolved ← resolve_crash_window rt key token at_most_once verify kwargs
                      unless_resolved rt resolved run_body)
                    else (do
                      append rt step_started (some key) (field "token" (str token) end)
                      run_body))
                  t)
              s).1
    guarded-Holds (ok u) s h =
        begun-Holds (is_some (lookup key s.ctx.unresolved)) s h.context.begun
          (record { effects = h.effects; peaceful = h.peaceful; context = tt })
    guarded-Holds (raised e) s h = record {
      effects = h.effects;
      peaceful = h.peaceful;
      context = tt;
    }
    guarded-Holds crashed s h = record { effects = h.effects; peaceful = h.peaceful; context = tt }

    pub open_step-Holds :
        (s : Machine)
        → Holds E (IsOpen key) s
        → Holds E Any (step_with_key rt key fn at_most_once verify max_attempts kwargs s).1
    unfolding step_with_key pending_step
    open_step-Holds s h = rw h.context.pending (
        guarded-Holds (checkpoint_guards rt s).0 (checkpoint_guards rt s).1 (
          checkpoint_guards-Preserves (Holds E (IsOpen key)) rt (cancel-Keeps E (IsOpen key) rt)
            guard s h))
