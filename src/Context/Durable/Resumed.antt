-- ===== src/Context/Durable/Resumed.antt =====
-- The steps of a resumed attempt, compared with those of the attempt before.
use anchor_runtime.Base.{
  ℕ, ◌+◌, String, Bool, false, Option, none, some, List, [], ◌∷◌, ◌++◌, ◌≡◌, refl, sym, ap, subst,
  ◌∙◌, arith, lookup, insert, or_else,
}
use anchor_runtime.Value.{Value, Dict}
use anchor_runtime.Model.{Uuid, StepIdempotency, RunRecord, Event}
use anchor_runtime.Exec.{Reply, ok, raised, crashed}
use anchor_runtime.Postgres.Tables.{Db}
use anchor_runtime.Machine.{Context, Machine, M, Interference}
use anchor_runtime.Callable.{Callable, invoke}
use anchor_runtime.Context.Guards.{Runtime}
use anchor_runtime.Context.Replay.{
  new_context, next_key, step_key, build_replay_state, replay_event, blank_context,
}
use anchor_runtime.Context.Replay.Keys.{after_key}
use anchor_runtime.Context.Replay.State.{recorded, replay_faithful}
use anchor_runtime.Context.Steps.Outcomes.{counted_replay, completed_step_replays}
use anchor_runtime.Context.Durable.Log.{log_of, HasRun, Later}
use anchor_runtime.Context.Durable.Attempt.{IsDurable, IsMonotone}
use anchor_runtime.Context.Durable.Trajectory.{
  Program, finish, then_step, perform, key_of, run_step, trajectory, perform_on, trajectory_on,
  perform-step, trajectory-step,
}
use anchor_runtime.Context.Durable.Holding.{IsOld, IsQuiet, IsClean, Holding, HoldsAt}
use anchor_runtime.Context.Durable.Remains.{remains, returned, stepped}

-- The attempt holds all that the log of the run records.
abbrev pub Covers : Uuid → Db → Machine → Type 0
Covers id db m =
    (k : String) (v : Value)
    → recorded k (log_of id db) none ≡ some v
    → lookup k m.ctx.completed ≡ some v

-- The first list begins with the second.
abbrev pub Continues : List (String × Value) → List (String × Value) → Type 0
Continues longer l = (extra : List (String × Value)) × (longer ≡ l ++ extra)

Continues-nil : (l : List (String × Value)) → Continues l []
Continues-nil l = (l, refl)

Continues-cons :
    {x : String × Value} {a whole : List (String × Value)} (b : List (String × Value))
    → whole ≡ x ∷ a
    → Continues a b
    → Continues whole (x ∷ b)
Continues-cons {x} b begins (extra, e) = (extra, begins ∙ ap (λ t. x ∷ t) e)

module _ (rt : Runtime) (guard : (g : M Bool) → rt.lease_guard ≡ some g → IsQuiet rt.run_id g)
    (later : Runtime) where
  abbrev id : Uuid
  id = rt.run_id

  abbrev Replays : Program → Type 0
  Replays p =
      (l : List (String × Value)) (m again : Machine)
      → IsOld l m.ctx.ordinals
      → Holding id l m.ctx.ordinals m
      → again.ctx.ordinals ≡ m.ctx.ordinals
      → Covers id (perform rt p m).1.db again
      → Continues (trajectory later p again) (trajectory rt p m)

  module _ (name : String) (fn : Callable) (i : StepIdempotency) (verify : Option Callable)
      (max_attempts : Option ℕ) (kwargs : Dict) (next : Value → Program)
      (body : (token : Uuid) → IsQuiet id (invoke fn (some token) kwargs))
      (answers : (token : Uuid) (f : Callable)
        → verify ≡ some f
        → IsQuiet id (invoke f (some token) kwargs))
      (clean : (v : Value) → IsClean rt (next v)) (l : List (String × Value)) (m again : Machine)
      (old : IsOld l m.ctx.ordinals) (h : Holding id l m.ctx.ordinals m)
      (same_ordinals : again.ctx.ordinals ≡ m.ctx.ordinals) where
    abbrev ran : Reply (Value × Bool) × Machine
    ran = run_step rt name fn i verify max_attempts kwargs m

    abbrev key : String
    key = key_of rt name m

    same_key : key_of later name again ≡ key
    same_key = ap (λ o. step_key name (or_else (lookup name o) 0 + 1)) same_ordinals

    -- The step is replayed.
    pub replayed :
        (v : Value)
        → lookup key again.ctx.completed ≡ some v
        → run_step later name fn i verify max_attempts kwargs again
          ≡ (ok (v, false), counted_replay (after_key name again))
    unfolding next_key
    replayed v held =
        completed_step_replays later (key_of later name again) fn i verify max_attempts kwargs
          (after_key name again) v (ap (λ k. lookup k again.ctx.completed) same_key ∙ held)

    pub next_ordinals :
        (counted_replay (after_key name again)).ctx.ordinals ≡ (after_key name m).ctx.ordinals
    unfolding next_key
    next_ordinals = ap (λ o. insert name (or_else (lookup name o) 0 + 1) o) same_ordinals

    again_then :
        (v : Value)
        → lookup key again.ctx.completed ≡ some v
        → trajectory later (then_step name fn i verify max_attempts kwargs next) again
          ≡ (key, v) ∷ trajectory later (next v) (counted_replay (after_key name again))
    again_then v held =
        trajectory-step later name fn i verify max_attempts kwargs next again
        ∙ rw (replayed v held, same_key) refl

    pub ordinals_after :
        (r : Reply (Value × Bool)) (n : Machine)
        → ran ≡ (r, n)
        → n.ctx.ordinals ≡ (after_key name m).ctx.ordinals
    ordinals_after r n same =
        let after =
          stepped rt guard name fn i verify max_attempts kwargs next body answers l m old h in
        ap (λ x. x.1.ctx.ordinals) (sym same) ∙ after.results.1

    pub still-Covers :
        (db : Db) → Covers id db again → Covers id db (counted_replay (after_key name again))
    unfolding next_key
    still-Covers db covers = covers

    step-Replays :
        (r : Reply (Value × Bool)) (n : Machine)
        → ran ≡ (r, n)
        → Covers id (perform_on rt next r n).1.db again
        → ((v : Value) → Replays (next v))
        → Continues
            (trajectory later (then_step name fn i verify max_attempts kwargs next) again)
            (trajectory_on rt key next r n)
    step-Replays (ok (v, executed)) n same covers rest =
        let (holds, olds) =
          returned rt guard name fn i verify max_attempts kwargs next body answers l m old h v
            executed n same in
        let end = remains rt guard (next v) (clean v) ((key, v) ∷ l) n olds holds in
        let held = covers key v (end.kept key v end.results.0) in
        Continues-cons (trajectory rt (next v) n) (again_then v held) (
          rest v ((key, v) ∷ l) n (counted_replay (after_key name again)) olds holds
            (next_ordinals ∙ sym (ordinals_after (ok (v, executed)) n same))
            (still-Covers (perform rt (next v) n).1.db covers))
    step-Replays (raised e) n same covers rest = Continues-nil _
    step-Replays crashed n same covers rest = Continues-nil _

  replays : (p : Program) → IsClean rt p → Replays p
  unfolding trajectory
  replays (finish v) clean l m again old h same covers = Continues-nil _
  replays (then_step name fn i verify max_attempts kwargs next) (body, answers, rest) l m again old
        h same covers =
      let ran = run_step rt name fn i verify max_attempts kwargs m in
      subst
        (Continues (trajectory later (then_step name fn i verify max_attempts kwargs next) again))
        (sym (trajectory-step rt name fn i verify max_attempts kwargs next m))
        (step-Replays name fn i verify max_attempts kwargs next body answers rest l m again old h
          same ran.0 ran.1 refl
          (subst (λ e. Covers id e.1.db again)
            (perform-step rt name fn i verify max_attempts kwargs next m) covers)
          (λ v. replays (next v) (rest v)))

replayed_ordinals :
    (o : Option String) (e : Event) (c : Context) → (replay_event o e c).ordinals ≡ c.ordinals
replayed_ordinals none e c = refl
replayed_ordinals (some k) e c = ground arith

rebuilt_ordinals : (es : List Event) (c : Context) → (build_replay_state es c).ordinals ≡ c.ordinals
unfolding build_replay_state
rebuilt_ordinals [] c = refl
rebuilt_ordinals (e ∷ es) c =
    rebuilt_ordinals es (replay_event e.step_key e c) ∙ replayed_ordinals e.step_key e c

pub new_ordinals : (run : RunRecord) (es : List Event) → (new_context run es).ordinals ≡ []
unfolding new_context
new_ordinals run es = rebuilt_ordinals es (blank_context run)

-- An attempt that starts: its context is built from the log that the database has of the run.
abbrev pub attempt_at : Uuid → RunRecord → Db → List Interference → Machine
attempt_at id run db schedule = record {
  db = db;
  schedule = schedule;
  ctx = new_context run (log_of id db);
}

pub start-IsDurable :
    (id : Uuid) (run : RunRecord) (db : Db) (schedule : List Interference)
    → HasRun id db
    → IsMonotone id schedule
    → IsDurable id (HoldsAt [] []) (attempt_at id run db schedule)
start-IsDurable id run db schedule h calm = record {
  has_run = h;
  kept = λ k v e. sym (replay_faithful run (log_of id db) k).0 ∙ e;
  monotone = calm;
  results = (tt, new_ordinals run (log_of id db));
}

-- Whatever the attempt ends by (a return, an exception, or the death of the process), and whatever
-- others do meanwhile that neither loses nor replaces a recorded result of the run: a later attempt
-- at the same program, over any later state of the log, takes the very steps that returned in this
-- attempt, in their order and with their results, before it takes any other. The steps' bodies and
-- verifiers and the lease guard touch neither the results nor the ordinals of the context.
pub resumed_trajectory :
    (rt later : Runtime) (p : Program) (run run_later : RunRecord) (db db_later : Db)
    (schedule schedule_later : List Interference)
    → ((g : M Bool) → rt.lease_guard ≡ some g → IsQuiet rt.run_id g)
    → IsClean rt p
    → HasRun rt.run_id db
    → IsMonotone rt.run_id schedule
    → Later rt.run_id (perform rt p (attempt_at rt.run_id run db schedule)).1.db db_later
    → Continues
        (trajectory later p (attempt_at rt.run_id run_later db_later schedule_later))
        (trajectory rt p (attempt_at rt.run_id run db schedule))
resumed_trajectory rt later p run run_later db db_later schedule schedule_later guard clean h calm
      after =
    let id = rt.run_id in
    let first = attempt_at id run db schedule in
    replays rt guard later p clean [] first (attempt_at id run_later db_later schedule_later) tt
      (subst (λ o. Holding id [] o first) (sym (new_ordinals run (log_of id db)))
        (start-IsDurable id run db schedule h calm))
      (new_ordinals run_later (log_of id db_later) ∙ sym (new_ordinals run (log_of id db)))
      (λ k v r. (replay_faithful run_later (log_of id db_later) k).0 ∙ after.results k v r)
