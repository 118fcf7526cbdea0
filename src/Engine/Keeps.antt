-- ===== src/Engine/Keeps.antt =====
-- Invariants of the side effects in an attempt.
use anchor_runtime.Base.{
  List, ℕ, Bool, String, Option, none, some, ◌≡◌, refl, sym, subst, arith, if◌then◌else◌, ltb,
}
use anchor_runtime.Value.{Value, Dict, int, null, str, end, field}
use anchor_runtime.Model.{
  Event, Uuid, RunRecord, RunStatus, terminal, cancelled, running, needs_review,
}
use anchor_runtime.EventType.{run_resumed, run_completed, run_failed}
use anchor_runtime.Errors.{
  Exn, exn_name, exn_str, exn_repr, workflow_not_found, tool_not_found, step_failed,
  budget_exceeded, cancellation_requested, ambiguous_step, lease_lost, other,
}
use anchor_runtime.Exec.{Reply, ok, raised, crashed, pure, or_raise, ◌>>=◌, ◌>>◌}
use anchor_runtime.Postgres.Tables.{EffectRow, Db}
use anchor_runtime.Postgres.Events.{append_event, load_events}
use anchor_runtime.Postgres.Runs.{save_usage, set_status, get_run, bump_attempt}
use anchor_runtime.Machine.{M, call}
use anchor_runtime.Machine.Preserves.{with_reply-Preserves}
use anchor_runtime.Machine.Keeps.{
  Holds, Calm, Any, call-Keeps, bind-Keeps, if-Keeps, or_raise-Keeps,
}
use anchor_runtime.Registry.{WorkflowFn, workflow}
use anchor_runtime.Context.Guards.{Runtime, append}
use anchor_runtime.Context.Keeps.{append-Keeps}
use anchor_runtime.Engine.{
  Outcome, Engine, outcome, fail, on_exception, fail_other, review_error, text_of, complete, settle,
  run_workflow, runtime, start_attempt, execute, enter, load_and_enter, set_running, note_resume,
  resumed_payload, is_none_type, is_missing, recorded_outcome,
}

status-effects :
    (id : Uuid) (s : RunStatus) (result : Value) (error : Option Dict) (db : Db)
    → (set_status id s result error db).1.effects ≡ db.effects
unfolding set_status
status-effects id s result error db = ground arith

module _ (E : List EffectRow → Type 0) where
  status-Calm :
      (id : Uuid) (s : RunStatus) (result : Value) (error : Option Dict)
      → Calm E (call (set_status id s result error))
  status-Calm id s result error =
      call-Keeps E Any (set_status id s result error)
        (λ db h. subst E (sym (status-effects id s result error db)) h)

  usage-Calm : (id : Uuid) → Calm E (λ m. call (save_usage id m.ctx.usage) m)
  unfolding save_usage
  usage-Calm id s h = call-Keeps E Any (save_usage id s.ctx.usage) (λ db k. k) s h

  module _ (rt : Runtime) where
    outcome-Calm :
        (s : RunStatus) (result : Value) (error : Option Dict) → Calm E (outcome rt s result error)
    outcome-Calm s result error m h = h

    -- The row is set, and the outcome is that.
    set_then-Calm :
        (s : RunStatus) (result : Value) (error shown : Option Dict)
        → Calm E (call (set_status rt.run_id s result error) >>= λ _. outcome rt s result shown)
    set_then-Calm s result error shown =
        bind-Keeps E Any (call (set_status rt.run_id s result error)) _
          (status-Calm rt.run_id s result error) (λ _. outcome-Calm s result shown)

    fail-Calm :
        (type_name message : String) (extra : Dict) → Calm E (fail rt type_name message extra)
    unfolding fail
    fail-Calm type_name message extra =
        bind-Keeps E Any (append rt run_failed none _) _ (append-Keeps E Any rt run_failed none _)
          (λ _.
            bind-Keeps E Any (λ m. call (save_usage rt.run_id m.ctx.usage) m) _
              (usage-Calm rt.run_id) (λ _. set_then-Calm _ _ _ _))

    -- An event, and then the row and the outcome.
    noted_then-Calm :
        (type : String) (key : Option String) (payload : Dict) (rest : M Outcome)
        → Calm E rest
        → Calm E (append rt type key payload >> rest)
    noted_then-Calm type key payload rest calm =
        bind-Keeps E Any (append rt type key payload) (λ _. rest)
          (append-Keeps E Any rt type key payload) (λ _. calm)

    fail_other-Calm : (e : Exn) → Calm E (fail_other rt e)
    fail_other-Calm e =
        fail-Calm (exn_name e) (text_of rt e)
          (field "traceback" (str (rt.host.traceback (exn_repr rt.host e))) end)

    on_exception-Calm : (e : Exn) → Calm E (on_exception rt e)
    unfolding on_exception
    on_exception-Calm (cancellation_requested reason) =
        noted_then-Calm _ _ _ _ (set_then-Calm cancelled null none none)
    on_exception-Calm (budget_exceeded d l o) = noted_then-Calm _ _ _ _ (
        fail-Calm "BudgetExceededError" (exn_str rt.host (budget_exceeded d l o))
          (field "dimension" (str d) end))
    on_exception-Calm (ambiguous_step key token) = noted_then-Calm _ _ _ _ (
        set_then-Calm needs_review null
          (some (review_error rt (ambiguous_step key token) key token)) none)
    on_exception-Calm (lease_lost message) =
        outcome-Calm running null
          (some (field "type" (str "LeaseLost") (field "message" (str message) end)))
    on_exception-Calm (step_failed key attempts cause) =
        fail-Calm "StepFailedError" (exn_str rt.host (step_failed key attempts cause))
          (field "step_key" (str key) (field "attempts" (int attempts) end))
    on_exception-Calm (workflow_not_found m) = fail_other-Calm (workflow_not_found m)
    on_exception-Calm (tool_not_found m) = fail_other-Calm (tool_not_found m)
    on_exception-Calm (other n m) = fail_other-Calm (other n m)

    complete-Calm : (result : Value) → Calm E (complete rt result)
    unfolding complete
    complete-Calm result s =
        noted_then-Calm run_completed none _ _
          (bind-Keeps E Any (λ m. call (save_usage rt.run_id m.ctx.usage) m) _
            (usage-Calm rt.run_id) (λ _. set_then-Calm _ _ _ _))
          s

    settle-Calm : (r : Reply Value) → Calm E (settle rt r)
    settle-Calm (ok result) = complete-Calm result
    settle-Calm (raised e) = on_exception-Calm e
    settle-Calm crashed = λ s h. h

    workflow-Calm :
        (input : Dict) (r : Reply WorkflowFn)
        → ((fn : WorkflowFn) → r ≡ ok fn → Calm E (fn.run input))
        → Calm E (run_workflow rt input r)
    workflow-Calm input (ok fn) runs =
        with_reply-Preserves (Holds E Any) (fn.run input) (settle rt) (runs fn refl) settle-Calm
    workflow-Calm input (raised (workflow_not_found m)) runs = fail-Calm "WorkflowNotFound" m end
    workflow-Calm input (raised (tool_not_found m)) runs = λ s h. h
    workflow-Calm input (raised (step_failed k n c)) runs = λ s h. h
    workflow-Calm input (raised (budget_exceeded d l o)) runs = λ s h. h
    workflow-Calm input (raised (cancellation_requested m)) runs = λ s h. h
    workflow-Calm input (raised (ambiguous_step k t)) runs = λ s h. h
    workflow-Calm input (raised (lease_lost m)) runs = λ s h. h
    workflow-Calm input (raised (other n m)) runs = λ s h. h
    workflow-Calm input crashed runs = λ s h. h

  module _ (engine : Engine) (id : Uuid) (guard : Option (M Bool))
      (runs : (name : String) (fn : WorkflowFn)
        → workflow engine.host name engine.registry ≡ ok fn
        → (input : Dict) → Calm E (fn.run input)) where
    abbrev rt : Runtime
    rt = runtime engine id guard

    event-Calm :
        (type : String) (key : Option String) (payload : Dict)
        → Calm E (call (append_event id type key payload))
    unfolding append
    event-Calm type key payload = append-Keeps E Any rt type key payload

    enter-Calm :
        (events : List Event) (fresh : RunRecord) → Calm E (enter engine id guard events fresh)
    enter-Calm events fresh s h =
        workflow-Calm rt fresh.input (workflow engine.host fresh.workflow engine.registry)
          (λ fn e. runs fresh.workflow fn e fresh.input) _
          (record { effects = h.effects; peaceful = h.peaceful; context = tt })

    load_and_enter-Calm : Calm E (load_and_enter engine id guard)
    unfolding get_run load_events
    load_and_enter-Calm =
        bind-Keeps E Any (call (get_run id)) _ (call-Keeps E Any (get_run id) (λ db h. h))
          (λ (found : Option RunRecord).
            bind-Keeps E Any (call (load_events id))
              (λ events. or_raise found _ >>= enter engine id guard events)
              (call-Keeps E Any (load_events id) (λ db h. h))
              (λ events.
                bind-Keeps E Any (or_raise found _) (enter engine id guard events)
                  (or_raise-Keeps E Any found _) (enter-Calm events)))

    note_resume-Calm :
        (attempt : ℕ) (run : RunRecord) → Calm E (note_resume engine id guard attempt run)
    note_resume-Calm attempt run =
        if-Keeps E Any (ltb 1 attempt)
          (call (append_event id run_resumed none (resumed_payload engine id guard attempt run))
            >> pure tt)
          (pure tt)
          (bind-Keeps E Any
            (call (append_event id run_resumed none (resumed_payload engine id guard attempt run)))
            (λ _. pure tt)
            (event-Calm run_resumed none (resumed_payload engine id guard attempt run))
            (λ _ s h. h))
          (λ s h. h)

    set_running-Calm :
        (run : RunRecord) (attempt : ℕ) → Calm E (set_running engine id guard run attempt)
    set_running-Calm run attempt =
        bind-Keeps E Any (note_resume engine id guard attempt run)
          (λ _. call (set_status id running null none) >> load_and_enter engine id guard)
          (note_resume-Calm attempt run)
          (λ _.
            bind-Keeps E Any (call (set_status id running null none))
              (λ _. load_and_enter engine id guard) (status-Calm id running null none)
              (λ _. load_and_enter-Calm))

    start-Calm : (run : RunRecord) → Calm E (start_attempt engine id guard run)
    unfolding start_attempt bump_attempt
    start-Calm run =
        bind-Keeps E Any (call (bump_attempt id))
          (λ bumped.
            or_raise bumped (is_none_type engine id guard) >>= set_running engine id guard run)
          (call-Keeps E Any (bump_attempt id) (λ db h. h))
          (λ bumped.
            bind-Keeps E Any (or_raise bumped (is_none_type engine id guard))
              (set_running engine id guard run) (or_raise-Keeps E Any bumped _)
              (set_running-Calm run))

    abbrev after_found : RunRecord → M Outcome
    after_found run =
        if terminal run.status
        then pure (recorded_outcome engine id guard run)
        else start_attempt engine id guard run

    pub execute-Calm : Calm E (execute engine id guard)
    unfolding execute get_run
    execute-Calm =
        bind-Keeps E Any (call (get_run id))
          (λ found. or_raise found (is_missing engine id guard) >>= after_found)
          (call-Keeps E Any (get_run id) (λ db h. h))
          (λ found.
            bind-Keeps E Any (or_raise found (is_missing engine id guard)) after_found
              (or_raise-Keeps E Any found _)
              (λ run.
                if-Keeps E Any (terminal run.status) (pure (recorded_outcome engine id guard run))
                  (start_attempt engine id guard run) (λ s h. h) (start-Calm run)))
