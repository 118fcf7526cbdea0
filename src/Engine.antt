-- ===== src/Engine.antt =====
-- src/anchor/engine.py: one attempt of one run.
pub mod Settled
pub mod Verdicts
pub mod Results
pub mod Ended
pub mod Keeps
use anchor_runtime.Base.{
  ℕ, ◌+◌, String, ◌<>◌, Bool, false, Option, none, some, List, ltb, ◌==◌, if◌then◌else◌,
}
use anchor_runtime.Value.{Value, null, bool, int, str, obj, Dict, end, field, merge}
use anchor_runtime.Model.{
  Uuid, Event, RunStatus, running, completed, failed, cancelled, needs_review, terminal, RunRecord,
}
use anchor_runtime.EventType.{
  run_resumed, run_completed, run_failed, run_cancelled, run_needs_review,
}
use anchor_runtime.EventType
use anchor_runtime.Errors.{
  Exn, workflow_not_found, tool_not_found, step_failed, budget_exceeded, cancellation_requested,
  ambiguous_step, lease_lost, other, exn_name, exn_str, exn_repr, Host, Amount, amount,
}
use anchor_runtime.Exec.{Reply, ok, raised, crashed, pure, raise, gets, or_raise, ◌>>=◌, ◌>>◌}
use anchor_runtime.Budget.{snapshot}
use anchor_runtime.Config.{Settings}
use anchor_runtime.Registry.{Registry, WorkflowFn, workflow}
use anchor_runtime.Provider.{ModelProvider}
use anchor_runtime.Postgres.Events.{append_event, load_events}
use anchor_runtime.Postgres.Runs.{get_run, bump_attempt, set_status, save_usage}
use anchor_runtime.Machine.{Context, Machine, M, call, modify_ctx, with_reply}
use anchor_runtime.Context.Replay.{new_context}
use anchor_runtime.Context.Guards.{Runtime, tracker, append}

pub record Outcome : Type 0 where
  pub run_id : Uuid
  pub status : RunStatus
  pub result : Value
  pub error : Option Dict
  pub replayed_steps : ℕ
  pub executed_steps : ℕ

unfoldable pub should_dequeue : Outcome → Bool
should_dequeue o = terminal o.status

pub record Engine : Type 0 where
  pub host : Host
  pub provider : ModelProvider
  pub registry : Registry
  pub settings : Settings

module _ (rt : Runtime) where
  -- `_outcome`
  abbrev pub outcome : RunStatus → Value → Option Dict → M Outcome
  outcome status result error = gets (λ m. record {
    run_id = rt.run_id;
    status = status;
    result = result;
    error = error;
    replayed_steps = m.ctx.replayed_steps;
    executed_steps = m.ctx.executed_steps;
  })

  abbrev pub error_dict : String → String → Dict → Dict
  error_dict type_name message extra =
      merge
        (field "type" (str type_name)
          (field "message" (str message) (field "retryable" (bool false) end)))
        extra

  -- `_fail`; every caller passes `retryable=False`.
  unfoldable pub fail : String → String → Dict → M Outcome
  unfolding append
  fail type_name message extra = do
    let error = error_dict type_name message extra
    append rt run_failed none error
    u ← gets (λ m. m.ctx.usage)
    call (save_usage rt.run_id u)
    call (set_status rt.run_id failed null (some error))
    outcome failed null (some error)

  -- `str(exc) or repr(exc)`
  abbrev pub text_of : Exn → String
  text_of e = let s = exn_str rt.host e in if s == "" then exn_repr rt.host e else s

  abbrev pub review_error : Exn → String → Uuid → Dict
  review_error e key token = field "type" (str "AmbiguousStepError") (
      field "message" (str (exn_str rt.host e)) (
        field "step_key" (str key)
          (field "token" (str token) (field "retryable" (bool false) end))))

  abbrev pub fail_other : Exn → M Outcome
  fail_other e =
      fail (exn_name e) (text_of e)
        (field "traceback" (str (rt.host.traceback (exn_repr rt.host e))) end)

  abbrev pub exceeded_payload : String → Amount → Amount → Dict
  exceeded_payload dimension limit observed =
      field "dimension" (str dimension)
        (field "limit" (amount limit) (field "observed" (amount observed) end))

  -- The `except` clauses around the workflow, in their order.
  unfoldable pub on_exception : Exn → M Outcome
  unfolding append fail
  on_exception (cancellation_requested reason) = do
    append rt run_cancelled none (field "reason" (str reason) end)
    call (set_status rt.run_id cancelled null none)
    outcome cancelled null none
  on_exception (budget_exceeded dimension limit observed) = do
    append rt EventType.budget_exceeded none (exceeded_payload dimension limit observed)
    fail "BudgetExceededError" (exn_str rt.host (budget_exceeded dimension limit observed))
        (field "dimension" (str dimension) end)
  on_exception (ambiguous_step key token) = do
    append rt run_needs_review (some key)
        (field "token" (str token) (field "reason" (str "unresolved_at_most_once_step") end))
    call (
        set_status rt.run_id needs_review null
          (some (review_error (ambiguous_step key token) key token)))
    outcome needs_review null none
  on_exception (lease_lost message) =
      outcome running null
        (some (field "type" (str "LeaseLost") (field "message" (str message) end)))
  on_exception (step_failed key attempts cause) =
      fail "StepFailedError" (exn_str rt.host (step_failed key attempts cause))
        (field "step_key" (str key) (field "attempts" (int attempts) end))
  on_exception e = fail_other e

  abbrev pub completed_payload : Machine → Dict
  completed_payload m = field "usage" (obj (snapshot (tracker m.ctx) m.db.now)) (
      field "replayed_steps" (int m.ctx.replayed_steps)
        (field "executed_steps" (int m.ctx.executed_steps) end))

  -- After the `try`: the workflow returned.
  unfoldable pub complete : Value → M Outcome
  unfolding append
  complete result = do
    payload ← gets completed_payload
    append rt run_completed none payload
    u ← gets (λ m. m.ctx.usage)
    call (save_usage rt.run_id u)
    call (set_status rt.run_id completed result none)
    outcome completed result none

  abbrev pub settle : Reply Value → M Outcome
  settle (ok result) = complete result
  settle (raised e) = on_exception e
  settle crashed = λ m. (crashed, m)

  abbrev pub run_workflow : Dict → Reply WorkflowFn → M Outcome
  run_workflow input (ok fn) = with_reply (fn.run input) settle
  run_workflow input (raised (workflow_not_found message)) = fail "WorkflowNotFound" message end
  run_workflow input (raised e) = raise e
  run_workflow input crashed = λ m. (crashed, m)

module _ (engine : Engine) (run_id : Uuid) (lease_guard : Option (M Bool)) where
  abbrev pub runtime : Runtime
  runtime = record {
    host = engine.host;
    run_id = run_id;
    registry = engine.registry;
    provider = engine.provider;
    settings = engine.settings;
    lease_guard = lease_guard;
  }

  abbrev pub is_missing : Exn
  is_missing = other "LookupError" ("run " <> run_id <> " does not exist")

  abbrev pub is_none_type : Exn
  is_none_type = other "TypeError" "'>' not supported between instances of 'NoneType' and 'int'"

  abbrev pub resumed_payload : ℕ → RunRecord → Dict
  resumed_payload attempt run =
      field "attempt" (int attempt) (field "events_before_resume" (int run.event_seq) end)

  abbrev pub note_resume : ℕ → RunRecord → M Unit
  note_resume attempt run =
      if ltb 1 attempt
      then call (append_event run_id run_resumed none (resumed_payload attempt run)) >> pure tt
      else pure tt

  -- The context is built from the log, and the workflow runs.
  abbrev pub enter : List Event → RunRecord → M Outcome
  enter events fresh = do
    modify_ctx (λ c. new_context fresh events)
    run_workflow runtime fresh.input (workflow engine.host fresh.workflow engine.registry)

  abbrev pub load_and_enter : M Outcome
  load_and_enter = do
    found ← call (get_run run_id)
    events ← call (load_events run_id)
    fresh ← or_raise found (other "AttributeError" "'NoneType' object has no attribute 'run_id'")
    enter events fresh

  abbrev pub set_running : RunRecord → ℕ → M Outcome
  set_running run attempt = do
    note_resume attempt run
    call (set_status run_id running null none)
    load_and_enter

  -- The run is not terminal: a new attempt.
  unfoldable pub start_attempt : RunRecord → M Outcome
  start_attempt run = do
    bumped ← call (bump_attempt run_id)
    attempt ← or_raise bumped is_none_type
    set_running run attempt

  abbrev pub recorded_outcome : RunRecord → Outcome
  recorded_outcome run = record {
    run_id = run_id;
    status = run.status;
    result = run.result;
    error = run.error;
    replayed_steps = 0;
    executed_steps = 0;
  }

  -- `Engine.execute`
  unfoldable pub execute : M Outcome
  unfolding start_attempt
  execute = do
    found ← call (get_run run_id)
    run ← or_raise found is_missing
    if terminal run.status then pure (recorded_outcome run) else start_attempt run
