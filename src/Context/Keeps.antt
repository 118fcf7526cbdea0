-- ===== src/Context/Keeps.antt =====
-- Invariants of the side effects in the calls of `RunContext`.
pub mod Crashed
use anchor_runtime.Base.{
  ℕ, zero, suc, ◌+◌, String, Bool, true, false, ltb, Option, none, some, List, [], ◌∷◌, ◌≡◌, refl,
  sym, subst, ◌∙◌, arith, lookup, is_some, if◌then◌else◌, Option-cases, Bool-cases, inl, inr,
}
use anchor_runtime.Value.{Value, is_null, is_json, str, Dict, end, field}
use anchor_runtime.Model.{Uuid, StepIdempotency, at_least_once, at_most_once}
use anchor_runtime.EventType.{step_completed}
use anchor_runtime.Errors.{Exn, stops_step}
use anchor_runtime.Exec.{Reply, ok, raised, crashed, pure, raise, gets, raise_if, ◌>>=◌, ◌>>◌}
use anchor_runtime.Postgres.Tables.{EffectRow, Db, find_run}
use anchor_runtime.Postgres.Events.{append_event, insert_event, has_event}
use anchor_runtime.Postgres.Runs.{is_cancel_requested, save_usage}
use anchor_runtime.Budget.{check}
use anchor_runtime.Machine.{Context, Machine, M, call, sleep, modify_ctx}
use anchor_runtime.Machine.Keeps.{
  Holds, Keeps, call-Keeps, bind-Keeps, if-Keeps, Any, Calm, changed,
}
use anchor_runtime.Callable.{Callable, invoke}
use anchor_runtime.Context.Guards.{
  Runtime, tracker, raise_some, check_lease, check_cancel, checkpoint_guards, check_budget,
  persist_usage, append,
}
use anchor_runtime.Context.Steps.{
  step_with_key, pending_step, resolve_crash_window, recover, recovered, give_up_or_repeat,
  ensure_json, complete_step, finish_step, after_attempt, failed_attempt, attempt_loop,
  execute_step, attempts_for, unless_resolved, replay_or,
}
use anchor_runtime.Context.Replay.{next_key}
use anchor_runtime.Context.Preserves.{IsStable, Landed}

append-effects :
    (id : Uuid) (type : String) (key : Option String) (payload : Dict) (db : Db)
    → (append_event id type key payload db).1.effects ≡ db.effects
unfolding append_event insert_event
append-effects id type key payload db = ground arith

module _ (E : List EffectRow → Type 0) (C : Context → Type 0) (rt : Runtime) where
  pub append-Keeps :
      (type : String) (key : Option String) (payload : Dict)
      → Keeps E C (append rt type key payload)
  unfolding append
  append-Keeps type key payload =
      call-Keeps E C (append_event rt.run_id type key payload)
        (λ db h. subst E (sym (append-effects rt.run_id type key payload db)) h)

  pub persist_usage-Keeps : Keeps E C (persist_usage rt)
  unfolding persist_usage save_usage
  persist_usage-Keeps s h = call-Keeps E C (save_usage rt.run_id s.ctx.usage) (λ db k. k) s h

  pub cancel-Keeps : Keeps E C (call (is_cancel_requested rt.run_id))
  unfolding is_cancel_requested
  cancel-Keeps = call-Keeps E C (is_cancel_requested rt.run_id) (λ db k. k)

module _ (E : List EffectRow → Type 0) (rt : Runtime) (key : String) where
  appended-Holds :
      (v : Value) (r : Reply (Option ℕ)) (s : Machine)
      → Holds E Any s
      → Landed (Holds E Any) key v r s
  appended-Holds v (ok n) s h = record { effects = h.effects; peaceful = h.peaceful; context = tt }
  appended-Holds v (raised e) s h = h
  appended-Holds v crashed s h = h

  pub Holds-IsStable : IsStable rt (Holds E Any) key
  unfolding sleep
  Holds-IsStable = record {
    written = λ type k payload other. append-Keeps E Any rt type k payload;
    landed = λ v payload result s h.
        appended-Holds v (append rt step_completed (some key) payload s).0 _
          (append-Keeps E Any rt step_completed (some key) payload s h);
    saved = persist_usage-Keeps E Any rt;
    slept = λ d. call-Keeps E Any _ (λ db h. h);
    asked = cancel-Keeps E Any rt;
    counted = λ f same. changed E f;
  }

pub named-Holds : (E : List EffectRow → Type 0) (name : String) → Keeps E Any (next_key name)
unfolding next_key
named-Holds E name s h = record { effects = h.effects; peaceful = h.peaceful; context = tt }
