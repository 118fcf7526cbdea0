-- ===== src/Context/Steps/Recorded.antt =====
-- A step returns nothing that it has not recorded.
use anchor_runtime.Base.{
  ℕ, zero, suc, ◌+◌, ◌-◌, ◌*◌, ◌^◌, String, Bool, Option, none, some, List, [], ◌∷◌, ◌≡◌, refl,
  lookup, lookup-insert, eq_refl, is_some, ltb,
}
use anchor_runtime.Value.{Value, is_null, int, Dict, field, end}
use anchor_runtime.Model.{Uuid, StepIdempotency, at_least_once, at_most_once}
use anchor_runtime.EventType.{step_started, step_completed, step_retried, step_failed, step_token}
use anchor_runtime.Errors.{Exn, stops_step}
use anchor_runtime.Exec.{Reply, ok, raised, crashed}
use anchor_runtime.Exec.Laws.{Yields, Yields-if, Yields-next, Yields-then, yielded}
use anchor_runtime.Postgres.Tables.{Sql}
use anchor_runtime.Postgres.Runs.{save_usage}
use anchor_runtime.Machine.{
  Context, Interference, crash, others, Machine, M, call, after_interference, sleep,
}
use anchor_runtime.Callable.{Callable, invoke}
use anchor_runtime.Context.Guards.{Runtime, checkpoint_guards, persist_usage, append}
use anchor_runtime.Context.Steps.{
  ensure_json, complete_step, recovered, give_up_or_repeat, resolve_crash_window, finish_step,
  failed_attempt, after_attempt, attempt_loop, retry_payload, execute_step, attempts_for,
  unless_resolved, pending_step, replay_or, step_with_key,
}

reply_keeps :
    {A : Type 0} (Q : Context → Type 0) (r : Reply A) (m : Machine)
    → Q m.ctx
    → Yields (λ a n. Q n.ctx) r m
reply_keeps Q (ok a) m h = h
reply_keeps Q (raised e) m h = tt
reply_keeps Q crashed m h = tt

-- No call of the store changes the attributes of the context.
call_keeps :
    {A : Type 0} (Q : Context → Type 0) (schedule : List Interference) (op : Sql A) (m : Machine)
    → Q m.ctx
    → Yields
        (λ a n. Q n.ctx)
        (after_interference schedule op m).0
        (after_interference schedule op m).1
call_keeps Q [] op m h = reply_keeps Q (op m.db).0 _ h
call_keeps Q (crash ∷ rest) op m h = tt
call_keeps Q (others f ∷ rest) op m h = reply_keeps Q (op (f m.db)).0 _ h

module _ (rt : Runtime) (key : String) where
  abbrev Holds : Value → Context → Type 0
  Holds v c = lookup key c.completed ≡ some v

  complete_step-Holds : (v : Value) (c : Context) → Holds v (complete_step key v c)
  complete_step-Holds v c = rw (lookup-insert key key v c.completed, eq_refl key) refl

  abbrev IsRecorded : Value × Bool → Machine → Type 0
  IsRecorded r m = Holds r.0 m.ctx

  finish-IsRecorded :
      (result : Value) (attempt : ℕ) (m : Machine)
      → Yields IsRecorded
          (finish_step rt key result attempt m).0
          (finish_step rt key result attempt m).1
  unfolding persist_usage call
  finish-IsRecorded result attempt m =
      Yields-then IsRecorded (ensure_json rt result key) _ m (λ checked n.
        Yields-then IsRecorded
          (append rt step_completed (some key)
            (field "result" checked (field "attempt" (int attempt) end)))
          _ n
          (λ seq p.
            Yields-next (λ _ q. Holds result q.ctx) IsRecorded _ _ _
              (call_keeps (Holds result) p.schedule (save_usage rt.run_id p.ctx.usage) _
                (complete_step-Holds result p.ctx))
              (λ _ q h. h)))

  -- The rest of the loop records what it returns.
  abbrev IsSafe : M (Value × Bool) → Type 0
  IsSafe again = (m : Machine) → Yields IsRecorded (again m).0 (again m).1

  failed-IsSafe :
      (attempts attempt : ℕ) (again : M (Value × Bool)) (e : Exn)
      → IsSafe again
      → IsSafe (failed_attempt rt key attempts attempt again e)
  failed-IsSafe attempts attempt again e safe m = Yields-if IsRecorded (stops_step e) _ _ m tt (
      Yields-if IsRecorded (ltb attempt attempts) _ _ m
        (Yields-then IsRecorded (append rt step_retried (some key) (retry_payload rt attempt e)) _ m
          (λ _ n.
            Yields-then IsRecorded (sleep (rt.settings.step_backoff_base * 2 ^ (attempt - 1))) _ n
              (λ _ p. safe p)))
        (Yields-then IsRecorded (append rt step_failed (some key) _) _ m (λ _ n. tt)))

  attempt-IsSafe :
      (attempts attempt : ℕ) (again : M (Value × Bool)) (r : Reply Value)
      → IsSafe again
      → IsSafe (after_attempt rt key attempts attempt again r)
  attempt-IsSafe attempts attempt again (ok v) safe m = finish-IsRecorded v attempt m
  attempt-IsSafe attempts attempt again (raised e) safe m =
      failed-IsSafe attempts attempt again e safe m
  attempt-IsSafe attempts attempt again crashed safe m = tt

  loop-IsSafe :
      (fn : Callable) (token : Uuid) (kwargs : Dict) (attempts left attempt : ℕ)
      → IsSafe (attempt_loop rt key fn token kwargs attempts left attempt)
  unfolding attempt_loop
  loop-IsSafe fn token kwargs attempts zero attempt m = tt
  loop-IsSafe fn token kwargs attempts (suc left) attempt m =
      let (r, n) = invoke fn (some token) kwargs m in
      attempt-IsSafe attempts attempt
        (attempt_loop rt key fn token kwargs attempts left (attempt + 1)) r
        (loop-IsSafe fn token kwargs attempts left (attempt + 1)) n

  -- What the resolution of a crash window decides: nothing, or a recorded outcome.
  abbrev IsResolved : Option Value → Machine → Type 0
  IsResolved none m = Unit
  IsResolved (some v) m = Holds v m.ctx

  abbrev Resolves : M (Option Value) → Type 0
  Resolves act = (m : Machine) → Yields IsResolved (act m).0 (act m).1

  give_up-Resolves :
      (token : Uuid) (idempotency : StepIdempotency)
      → Resolves (give_up_or_repeat rt key token idempotency)
  give_up-Resolves token at_least_once m =
      Yields-then IsResolved (append rt step_retried (some key) _) _ m (λ _ n. tt)
  give_up-Resolves token at_most_once m = tt

  recovered-Resolves : (v : Value) → Resolves (recovered rt key v)
  recovered-Resolves v m = Yields-then IsResolved (ensure_json rt v key) _ m (λ checked n.
      Yields-then IsResolved (append rt step_completed (some key) _) _ n
        (λ seq p. complete_step-Holds v p.ctx))

  window-Resolves :
      (token : Uuid) (idempotency : StepIdempotency) (verify : Option Callable) (kwargs : Dict)
      → Resolves (resolve_crash_window rt key token idempotency verify kwargs)
  unfolding resolve_crash_window
  window-Resolves token idempotency none kwargs m = give_up-Resolves token idempotency m
  window-Resolves token idempotency (some verify) kwargs m =
      Yields-then IsResolved (invoke verify (some token) kwargs) _ m (λ v n.
        Yields-if IsResolved (is_null v) _ _ n (give_up-Resolves token idempotency n)
          (recovered-Resolves v n))

  resolved-IsRecorded :
      (o : Option Value) (body : M (Value × Bool)) (m : Machine)
      → IsSafe body
      → IsResolved o m
      → Yields IsRecorded (unless_resolved rt o body m).0 (unless_resolved rt o body m).1
  resolved-IsRecorded none body m safe h = safe m
  resolved-IsRecorded (some v) body m safe h = h

  pending-IsSafe :
      (fn : Callable) (idempotency : StepIdempotency) (verify : Option Callable)
      (max_attempts : Option ℕ) (kwargs : Dict)
      → IsSafe (pending_step rt key fn idempotency verify max_attempts kwargs)
  unfolding pending_step
  pending-IsSafe fn idempotency verify max_attempts kwargs m =
      let token = step_token rt.host rt.run_id key in
      let attempts = attempts_for rt max_attempts in
      let body = loop-IsSafe fn token kwargs attempts attempts 1 in
      Yields-then IsRecorded (checkpoint_guards rt) _ m (λ _ n.
        Yields-if IsRecorded (is_some (lookup key n.ctx.unresolved)) _ _ n
          (Yields-next IsResolved IsRecorded _ _ _
            (window-Resolves token idempotency verify kwargs n)
            (λ o p h.
              resolved-IsRecorded o (execute_step rt key fn token kwargs max_attempts) p body h))
          (Yields-then IsRecorded (append rt step_started (some key) _) _ n (λ _ p. body p)))

  replay-IsRecorded :
      (o : Option Value) (pending : M (Value × Bool)) (m : Machine)
      → lookup key m.ctx.completed ≡ o
      → IsSafe pending
      → Yields IsRecorded (replay_or rt o pending m).0 (replay_or rt o pending m).1
  replay-IsRecorded none pending m h safe = safe m
  replay-IsRecorded (some v) pending m h safe = h

  -- Whatever the body, the verifier and the rest of the world do: the result that a step returns is
  -- the one that this attempt holds as recorded under the key of the step.
  pub returned_is_recorded :
      (fn : Callable) (idempotency : StepIdempotency) (verify : Option Callable)
      (max_attempts : Option ℕ) (kwargs : Dict) (m n : Machine) (v : Value) (executed : Bool)
      → step_with_key rt key fn idempotency verify max_attempts kwargs m ≡ (ok (v, executed), n)
      → lookup key n.ctx.completed ≡ some v
  unfolding step_with_key
  returned_is_recorded fn idempotency verify max_attempts kwargs m n v executed ran =
      yielded IsRecorded ran (
        replay-IsRecorded (lookup key m.ctx.completed) _ m refl
          (pending-IsSafe fn idempotency verify max_attempts kwargs))
