-- ===== src/Context/Preserves/Steps.antt =====
-- Invariants of the machine in a durable step.
use anchor_runtime.Base.{
  ℕ, zero, suc, ◌+◌, String, Bool, true, false, ltb, Option, none, some, ◌≡◌, refl, lookup, is_some,
  if◌then◌else◌,
}
use anchor_runtime.Value.{Value, is_null, is_json, str, Dict, end, field}
use anchor_runtime.Model.{Uuid, StepIdempotency, at_least_once, at_most_once}
use anchor_runtime.EventType.{step_started, step_token}
use anchor_runtime.Errors.{Exn, stops_step}
use anchor_runtime.Exec.{Reply, ok, raised, crashed, pure, raise, ◌>>=◌, ◌>>◌}
use anchor_runtime.Machine.{Context, Machine, M, sleep, modify_ctx}
use anchor_runtime.Machine.Preserves.{Preserves, bind-Preserves, if-Preserves}
use anchor_runtime.Callable.{Callable, invoke}
use anchor_runtime.Context.Guards.{Runtime, checkpoint_guards, persist_usage, append}
use anchor_runtime.Context.Steps.{
  step_with_key, pending_step, resolve_crash_window, recovered, give_up_or_repeat, ensure_json,
  finish_step, after_attempt, failed_attempt, attempt_loop, execute_step, unless_resolved,
  replay_or,
}
use anchor_runtime.Context.Preserves.{
  IsStable, then_written, then_counted, then_completed, checkpoint_guards-Preserves,
}

module _ (I : Machine → Type 0) (rt : Runtime) (key : String) (st : IsStable rt I key) where
  json-Preserves :
      {B : Type 0} (b : Bool) (v : Value) (f : Value → M B) (e : Exn)
      → Preserves I (f v)
      → Preserves I ((if b then pure v else raise e) >>= f)
  json-Preserves true v f e rest = rest
  json-Preserves false v f e rest = λ s h. h

  -- A result that is JSON is what the check returns.
  checked-Preserves :
      {B : Type 0} (v : Value) (f : Value → M B)
      → Preserves I (f v)
      → Preserves I (ensure_json rt v key >>= f)
  checked-Preserves v f rest = json-Preserves (is_json v) v f _ rest

  give_up-Preserves :
      (token : Uuid) (i : StepIdempotency) → Preserves I (give_up_or_repeat rt key token i)
  give_up-Preserves token at_least_once = then_written I rt key st _ _ _ _ refl (λ _ s h. h)
  give_up-Preserves token at_most_once = λ s h. h

  recovered-Preserves : (v : Value) → Preserves I (recovered rt key v)
  recovered-Preserves v =
      checked-Preserves v _ (then_completed I rt key st v _ (pure (some v)) refl (λ s h. h))

  pub window-Preserves :
      (token : Uuid) (i : StepIdempotency) (verify : Option Callable) (kwargs : Dict)
      → ((f : Callable) → verify ≡ some f → Preserves I (invoke f (some token) kwargs))
      → Preserves I (resolve_crash_window rt key token i verify kwargs)
  unfolding resolve_crash_window
  window-Preserves token i none kwargs answers = give_up-Preserves token i
  window-Preserves token i (some f) kwargs answers =
      bind-Preserves I (invoke f (some token) kwargs) _ (answers f refl)
        (λ v. if-Preserves I (is_null v) _ _ (give_up-Preserves token i) (recovered-Preserves v))

  abbrev count_step : Context → Context
  count_step c = record c { executed_steps = c.executed_steps + 1 }

  abbrev save_and_return : Value → M (Value × Bool)
  save_and_return v = persist_usage rt >> pure (v, true)

  save-Preserves : (v : Value) → Preserves I (save_and_return v)
  save-Preserves v = bind-Preserves I (persist_usage rt) _ st.saved (λ _ s h. h)

  finish-Preserves : (v : Value) (n : ℕ) → Preserves I (finish_step rt key v n)
  finish-Preserves v n = checked-Preserves v _ (
      then_completed I rt key st v _ (modify_ctx count_step >> save_and_return v) refl (
        then_counted I rt key st count_step (save_and_return v)
          (record { completed = λ c. refl; ordinals = λ c. refl }) (save-Preserves v)))

  module _ (fn : Callable) (token : Uuid) (kwargs : Dict)
      (body : Preserves I (invoke fn (some token) kwargs)) where
    failed-Preserves :
        (attempts attempt : ℕ) (again : M (Value × Bool)) (e : Exn)
        → Preserves I again
        → Preserves I (failed_attempt rt key attempts attempt again e)
    failed-Preserves attempts attempt again e rest =
        if-Preserves I (stops_step e) _ _ (λ s h. h)
          (if-Preserves I (ltb attempt attempts) _ _
            (then_written I rt key st _ _ _ _ refl
              (λ _. bind-Preserves I (sleep _) _ (st.slept _) (λ _. rest)))
            (then_written I rt key st _ _ _ _ refl (λ _ s h. h)))

    after-Preserves :
        (attempts attempt : ℕ) (again : M (Value × Bool)) (r : Reply Value)
        → Preserves I again
        → Preserves I (after_attempt rt key attempts attempt again r)
    after-Preserves attempts attempt again (ok v) rest = finish-Preserves v attempt
    after-Preserves attempts attempt again (raised e) rest =
        failed-Preserves attempts attempt again e rest
    after-Preserves attempts attempt again crashed rest = λ s h. h

    loop-Preserves :
        (attempts left attempt : ℕ)
        → Preserves I (attempt_loop rt key fn token kwargs attempts left attempt)
    unfolding attempt_loop
    loop-Preserves attempts zero attempt = λ s h. h
    loop-Preserves attempts (suc left) attempt = λ s h.
        after-Preserves attempts attempt _ (invoke fn (some token) kwargs s).0
          (loop-Preserves attempts left (attempt + 1)) _ (body s h)

    execute-Preserves :
        (max_attempts : Option ℕ) → Preserves I (execute_step rt key fn token kwargs max_attempts)
    unfolding execute_step
    execute-Preserves max_attempts = loop-Preserves _ _ _

  resolved-Preserves :
      (o : Option Value) (body : M (Value × Bool))
      → Preserves I body
      → Preserves I (unless_resolved rt o body)
  resolved-Preserves none body calm = calm
  resolved-Preserves (some v) body calm = λ s h. h

  -- A step keeps the invariant if its body, its verifier and the lease guard do.
  module _ (fn : Callable) (i : StepIdempotency) (verify : Option Callable)
      (max_attempts : Option ℕ) (kwargs : Dict)
      (guard : (g : M Bool) → rt.lease_guard ≡ some g → Preserves I g)
      (body : (token : Uuid) → Preserves I (invoke fn (some token) kwargs))
      (answers : (token : Uuid) (f : Callable)
        → verify ≡ some f
        → Preserves I (invoke f (some token) kwargs)) where
    abbrev token : Uuid
    token = step_token rt.host rt.run_id key

    abbrev run_body : M (Value × Bool)
    run_body = execute_step rt key fn token kwargs max_attempts

    body-Preserves : Preserves I run_body
    body-Preserves = execute-Preserves fn token kwargs (body token) max_attempts

    window_or_start-Preserves :
        (b : Bool)
        → Preserves I (
            if b
            then (do
              resolved ← resolve_crash_window rt key token i verify kwargs
              unless_resolved rt resolved run_body)
            else (do append rt step_started (some key) (field "token" (str token) end); run_body))
    window_or_start-Preserves b =
        if-Preserves I b _ _
          (bind-Preserves I (resolve_crash_window rt key token i verify kwargs) _
            (window-Preserves token i verify kwargs (answers token))
            (λ o. resolved-Preserves o run_body body-Preserves))
          (then_written I rt key st _ _ _ _ refl (λ _. body-Preserves))

    pending-Preserves : Preserves I (pending_step rt key fn i verify max_attempts kwargs)
    unfolding pending_step
    pending-Preserves =
        bind-Preserves I (checkpoint_guards rt) _ (checkpoint_guards-Preserves I rt st.asked guard)
          (λ _ s h. window_or_start-Preserves (is_some (lookup key s.ctx.unresolved)) s h)

    replay-Preserves :
        (o : Option Value)
        → Preserves I (replay_or rt o (pending_step rt key fn i verify max_attempts kwargs))
    replay-Preserves (some v) =
        then_counted I rt key st {B = Value × Bool} _ (pure (v, false))
          (record { completed = λ c. refl; ordinals = λ c. refl }) (λ s h. h)
    replay-Preserves none = pending-Preserves

    pub step-Preserves : Preserves I (step_with_key rt key fn i verify max_attempts kwargs)
    unfolding step_with_key
    step-Preserves s h = replay-Preserves (lookup key s.ctx.completed) s h
