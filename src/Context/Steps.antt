-- ===== src/Context/Steps.antt =====
-- `_step_with_key` and `_resolve_crash_window`: the life of one durable step.
pub mod Outcomes
pub mod Recorded
use anchor_runtime.Base.{
  ℕ, zero, suc, ◌+◌, ◌-◌, ◌*◌, ◌^◌, String, ◌<>◌, Bool, true, false, Option, none, some, lookup,
  insert, erase, is_some, ltb, if◌then◌else◌,
}
use anchor_runtime.Value.{Value, is_null, int, str, is_json, type_name, Dict, end, field}
use anchor_runtime.Model.{Uuid, StepIdempotency, at_least_once, at_most_once}
use anchor_runtime.EventType.{step_started, step_completed, step_retried, step_failed, step_token}
use anchor_runtime.Errors
use anchor_runtime.Errors.{Exn, other, ambiguous_step, exn_repr, stops_step}
use anchor_runtime.Exec.{Reply, ok, raised, crashed, pure, raise, gets, raise_if, ◌>>=◌, ◌>>◌}
use anchor_runtime.Config.{Settings}
use anchor_runtime.Machine.{Context, M, sleep, modify_ctx, with_reply}
use anchor_runtime.Callable.{Callable, invoke}
use anchor_runtime.Context.Guards.{Runtime, checkpoint_guards, persist_usage, append}

-- `self._completed[key] = result` and `self._unresolved.pop(key, None)`
abbrev pub complete_step : String → Value → Context → Context
complete_step key v c = record c {
  completed = insert key v c.completed;
  unresolved = erase key c.unresolved;
}

module _ (rt : Runtime) where
  -- `_ensure_json`
  abbrev pub ensure_json : Value → String → M Value
  ensure_json value key =
      if is_json value
      then pure value
      else raise (
          other "TypeError" (
            "step "
            <> rt.host.repr_str key
            <> " returned a value that is not JSON-serialisable "
            <> ("(" <> type_name value <> "); step results are persisted to the event log")))

  -- What `_resolve_crash_window` returns: `_UNRESOLVED`, or an outcome.
  abbrev pub give_up_or_repeat : String → Uuid → StepIdempotency → M (Option Value)
  give_up_or_repeat key token at_least_once = do
    append rt step_retried (some key)
        (field "reason" (str "crash_window") (field "token" (str token) end))
    pure none
  give_up_or_repeat key token at_most_once = raise (ambiguous_step key token)

  -- The verifier says that the effect landed, and what it returned.
  abbrev pub recovered : String → Value → M (Option Value)
  recovered key outcome = do
    result ← ensure_json outcome key
    append rt step_completed (some key)
        (field "result" result (field "recovered_by" (str "verify") end))
    modify_ctx (complete_step key outcome)
    pure (some outcome)

  abbrev pub recover : String → Uuid → StepIdempotency → Value → M (Option Value)
  recover key token idempotency outcome =
      if is_null outcome then give_up_or_repeat key token idempotency else recovered key outcome

  unfoldable pub resolve_crash_window :
      String → Uuid → StepIdempotency → Option Callable → Dict → M (Option Value)
  unfolding append
  resolve_crash_window key token idempotency none kwargs = give_up_or_repeat key token idempotency
  resolve_crash_window key token idempotency (some verify) kwargs = do
    outcome ← invoke verify (some token) kwargs
    recover key token idempotency outcome

  -- The `else` of the `try`: the body returned.
  abbrev pub finish_step : String → Value → ℕ → M (Value × Bool)
  finish_step key result attempt = do
    checked ← ensure_json result key
    append rt step_completed (some key) (field "result" checked (field "attempt" (int attempt) end))
    modify_ctx (complete_step key result)
    modify_ctx (λ c. record c { executed_steps = c.executed_steps + 1 })
    persist_usage rt
    pure (result, true)

  abbrev pub retry_payload : ℕ → Exn → Dict
  retry_payload attempt e =
      field "attempt" (int attempt)
        (field "error" (str (exn_repr rt.host e)) (field "reason" (str "step_error") end))

  -- `except Exception` of an attempt; `again` is the rest of the loop.
  abbrev pub failed_attempt : String → ℕ → ℕ → M (Value × Bool) → Exn → M (Value × Bool)
  failed_attempt key attempts attempt again e =
      if stops_step e
      then raise e
      else if ltb attempt attempts
      then (do
        append rt step_retried (some key) (retry_payload attempt e)
        sleep (rt.settings.step_backoff_base * 2 ^ (attempt - 1))
        again)
      else (do
        append rt step_failed (some key)
            (field "attempts" (int attempt) (field "error" (str (exn_repr rt.host e)) end))
        raise (Errors.step_failed key attempt e))

  abbrev pub after_attempt : String → ℕ → ℕ → M (Value × Bool) → Reply Value → M (Value × Bool)
  after_attempt key attempts attempt again (ok result) = finish_step key result attempt
  after_attempt key attempts attempt again (raised e) = failed_attempt key attempts attempt again e
  after_attempt key attempts attempt again crashed = λ m. (crashed, m)

  -- `for attempt in range(1, attempts + 1)`, with `left` rounds to go. The loop runs to its end
  -- only if it has no round at all.
  unfoldable pub attempt_loop : String → Callable → Uuid → Dict → ℕ → ℕ → ℕ → M (Value × Bool)
  unfolding append persist_usage sleep
  attempt_loop key fn token kwargs attempts zero attempt =
      raise (Errors.step_failed key attempts (other "RuntimeError" "unknown"))
  attempt_loop key fn token kwargs attempts (suc left) attempt =
      let again = attempt_loop key fn token kwargs attempts left (attempt + 1) in
      with_reply (invoke fn (some token) kwargs) (after_attempt key attempts attempt again)

  -- `max_attempts or self.settings.step_max_attempts`
  abbrev pub attempts_for : Option ℕ → ℕ
  attempts_for none = rt.settings.step_max_attempts
  attempts_for (some zero) = rt.settings.step_max_attempts
  attempts_for (some (suc n)) = suc n

  unfoldable pub execute_step : String → Callable → Uuid → Dict → Option ℕ → M (Value × Bool)
  unfolding attempt_loop
  execute_step key fn token kwargs max_attempts =
      attempt_loop key fn token kwargs (attempts_for max_attempts) (attempts_for max_attempts) 1

  abbrev pub unless_resolved : Option Value → M (Value × Bool) → M (Value × Bool)
  unless_resolved none body = body
  unless_resolved (some v) body = pure (v, false)

  -- A step that the log does not show as completed.
  unfoldable pub pending_step :
      String → Callable → StepIdempotency → Option Callable → Option ℕ → Dict → M (Value × Bool)
  unfolding checkpoint_guards resolve_crash_window execute_step
  pending_step key fn idempotency verify max_attempts kwargs = do
    checkpoint_guards rt
    let token = step_token rt.host rt.run_id key
    let body = execute_step key fn token kwargs max_attempts
    recovering ← gets (λ m. is_some (lookup key m.ctx.unresolved))
    if recovering
        then (do
          resolved ← resolve_crash_window key token idempotency verify kwargs
          unless_resolved resolved body)
        else (do append rt step_started (some key) (field "token" (str token) end); body)

  abbrev pub replay_or : Option Value → M (Value × Bool) → M (Value × Bool)
  replay_or (some v) pending = do
    modify_ctx (λ c. record c { replayed_steps = c.replayed_steps + 1 })
    pure (v, false)
  replay_or none pending = pending

  -- Returns the result, and whether the body was run to get it.
  unfoldable pub step_with_key :
      String → Callable → StepIdempotency → Option Callable → Option ℕ → Dict → M (Value × Bool)
  unfolding pending_step
  step_with_key key fn idempotency verify max_attempts kwargs = do
    recorded ← gets (λ m. lookup key m.ctx.completed)
    replay_or recorded (pending_step key fn idempotency verify max_attempts kwargs)
