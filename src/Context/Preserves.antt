-- ===== src/Context/Preserves.antt =====
-- Invariants of the machine in the methods of `RunContext`.
pub mod Steps
pub mod Calls
use anchor_runtime.Base.{
  ℕ, zero, suc, ◌+◌, String, Bool, true, false, ltb, Option, none, some, ◌==◌, List, [], ◌∷◌, ◌≡◌,
  refl, sym, subst, ◌∙◌, arith, lookup, is_some, if◌then◌else◌, Option-cases, Bool-cases, inl, inr,
}
use anchor_runtime.Value.{Value, is_null, is_json, str, Dict, end, field, get?}
use anchor_runtime.Model.{Uuid, StepIdempotency, at_least_once, at_most_once}
use anchor_runtime.EventType.{step_started, step_completed, step_token}
use anchor_runtime.Errors.{Exn, stops_step}
use anchor_runtime.Exec.{
  Reply, ok, raised, crashed, pure, raise, gets, raise_if, continue, ◌>>=◌, ◌>>◌,
}
use anchor_runtime.Postgres.Tables.{EffectRow, Db, find_run}
use anchor_runtime.Postgres.Events.{append_event, has_event}
use anchor_runtime.Postgres.Runs.{is_cancel_requested, save_usage}
use anchor_runtime.Budget.{check}
use anchor_runtime.Machine.{Context, Machine, M, call, sleep, modify_ctx}
use anchor_runtime.Callable.{Callable, invoke}
use anchor_runtime.Context.Guards.{
  Runtime, tracker, raise_some, check_lease, check_cancel, checkpoint_guards, check_budget,
  persist_usage, append,
}
use anchor_runtime.Context.Steps.{
  step_with_key, pending_step, resolve_crash_window, recover, recovered, give_up_or_repeat,
  ensure_json, complete_step, finish_step, after_attempt, failed_attempt, attempt_loop,
  execute_step, attempts_for, unless_resolved, replay_or,
}
use anchor_runtime.Machine.Preserves.{Preserves, bind-Preserves, if-Preserves, continue-Preserves}

-- The step is entered as completed, if its event was appended.
abbrev pub Landed : (Machine → Type 0) → String → Value → Reply (Option ℕ) → Machine → Type 0
Landed I key v (ok n) s = I (record s { ctx = complete_step key v s.ctx })
Landed I key v (raised e) s = I s
Landed I key v crashed s = I s

-- A change of the other attributes than the results and the ordinals.
pub record IsCount (f : Context → Context) : Type 0 where
  pub completed : (c : Context) → (f c).completed ≡ c.completed
  pub ordinals : (c : Context) → (f c).ordinals ≡ c.ordinals

-- What `RunContext` does for the step `key` preserves the invariant: its calls of the store and its
-- changes of the attributes.
pub record IsStable (rt : Runtime) (I : Machine → Type 0) (key : String) : Type 0 where
  pub written :
      (type : String) (k : Option String) (payload : Dict)
      → (type == step_completed) ≡ false
      → Preserves I (append rt type k payload)
  pub landed :
      (v : Value) (payload : Dict)
      → get? "result" payload ≡ some v
      → (s : Machine) → I s
      → Landed I key v
          (append rt step_completed (some key) payload s).0
          (append rt step_completed (some key) payload s).1
  pub saved : Preserves I (persist_usage rt)
  pub slept : (d : ℕ) → Preserves I (sleep d)
  pub asked : Preserves I (call (is_cancel_requested rt.run_id))
  pub counted : (f : Context → Context) → IsCount f → Preserves I (modify_ctx f)

module _ (I : Machine → Type 0) (rt : Runtime)
    (asked : Preserves I (call (is_cancel_requested rt.run_id))) where
  raise_some-Preserves : (e : Option Exn) → Preserves I (raise_some e)
  raise_some-Preserves none s h = h
  raise_some-Preserves (some e) s h = h

  check_budget-Preserves : Preserves I check_budget
  unfolding check_budget
  check_budget-Preserves s h = raise_some-Preserves (check (tracker s.ctx) s.db.now) s h

  lease-Preserves :
      (g : Option (M Bool))
      → ((m : M Bool) → g ≡ some m → Preserves I m)
      → Preserves I (check_lease rt g)
  lease-Preserves none guard = λ s h. h
  lease-Preserves (some g) guard = bind-Preserves I g _ (guard g refl) (λ owned s h. h)

  check_cancel-Preserves : Preserves I (check_cancel rt)
  check_cancel-Preserves =
      bind-Preserves I (call (is_cancel_requested rt.run_id)) _ asked (λ flag s h. h)

  pub checkpoint_guards-Preserves :
      ((g : M Bool) → rt.lease_guard ≡ some g → Preserves I g) → Preserves I (checkpoint_guards rt)
  unfolding checkpoint_guards
  checkpoint_guards-Preserves guard =
      bind-Preserves I (check_lease rt rt.lease_guard) _ (lease-Preserves rt.lease_guard guard)
        (λ _.
          bind-Preserves I (check_cancel rt) _ check_cancel-Preserves (λ _. check_budget-Preserves))

module _ (I : Machine → Type 0) (rt : Runtime) (key : String) (st : IsStable rt I key) where
  -- An event is appended, and then the rest follows.
  pub then_written :
      {B : Type 0} (type : String) (k : Option String) (payload : Dict) (f : Option ℕ → M B)
      → (type == step_completed) ≡ false
      → ((n : Option ℕ) → Preserves I (f n))
      → Preserves I (append rt type k payload >>= f)
  then_written type k payload f other rest =
      bind-Preserves I (append rt type k payload) f (st.written type k payload other) rest

  pub then_counted :
      {B : Type 0} (f : Context → Context) (rest : M B)
      → IsCount f
      → Preserves I rest
      → Preserves I (modify_ctx f >> rest)
  then_counted {B} f rest same calm =
      bind-Preserves I {B = B} (modify_ctx f) (λ _. rest) (st.counted f same) (λ _. calm)

  landed-next :
      {B : Type 0} (v : Value) (rest : M B) (r : Reply (Option ℕ)) (s : Machine)
      → Preserves I rest
      → Landed I key v r s
      → I (continue r (λ _. modify_ctx (complete_step key v) >> rest) s).1
  landed-next v rest (ok n) s calm h = calm _ h
  landed-next v rest (raised e) s calm h = h
  landed-next v rest crashed s calm h = h

  pub then_completed :
      {B : Type 0} (v : Value) (payload : Dict) (rest : M B)
      → get? "result" payload ≡ some v
      → Preserves I rest
      → Preserves I (
          append rt step_completed (some key) payload >>= λ _.
          modify_ctx (complete_step key v) >> rest)
  then_completed v payload rest holds calm s h =
      landed-next v rest (append rt step_completed (some key) payload s).0 _ calm
        (st.landed v payload holds s h)
