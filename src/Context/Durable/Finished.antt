-- ===== src/Context/Durable/Finished.antt =====
-- An attempt that returned, and whose process died before the engine noted that.
use anchor_runtime.Base.{
  ℕ, String, Bool, Option, some, List, [], ◌∷◌, ◌≡◌, refl, sym, ap, subst, ◌∙◌, lookup,
}
use anchor_runtime.Value.{Value, Dict}
use anchor_runtime.Model.{Uuid, StepIdempotency, RunRecord}
use anchor_runtime.Exec.{Reply, ok, raised, crashed}
use anchor_runtime.Postgres.Tables.{Db}
use anchor_runtime.Machine.{Machine, M, Interference}
use anchor_runtime.Callable.{Callable, invoke}
use anchor_runtime.Context.Guards.{Runtime}
use anchor_runtime.Context.Replay.{next_key}
use anchor_runtime.Context.Replay.Keys.{after_key}
use anchor_runtime.Context.Replay.State.{replay_faithful}
use anchor_runtime.Context.Steps.Outcomes.{counted_replay}
use anchor_runtime.Context.Durable.Log.{log_of, HasRun, Later}
use anchor_runtime.Context.Durable.Attempt.{IsMonotone}
use anchor_runtime.Context.Durable.Trajectory.{
  Program, finish, then_step, perform, key_of, run_step, perform_on, perform-step,
}
use anchor_runtime.Context.Durable.Holding.{IsOld, IsQuiet, IsClean, Holding}
use anchor_runtime.Context.Durable.Remains.{remains, returned}
use anchor_runtime.Context.Durable.Resumed.{
  Covers, replayed, next_ordinals, ordinals_after, still-Covers, new_ordinals, attempt_at,
  start-IsDurable,
}

-- The attempt returned the value, wrote nothing and ran no step.
abbrev pub IsAnswered : Value → Machine → Reply Value × Machine → Type 0
IsAnswered v m e = (e.0 ≡ ok v) × (e.1.db ≡ m.db) × (e.1.ctx.executed_steps ≡ m.ctx.executed_steps)

module _ (rt : Runtime) (guard : (g : M Bool) → rt.lease_guard ≡ some g → IsQuiet rt.run_id g)
    (later : Runtime) (v : Value) where
  abbrev id : Uuid
  id = rt.run_id

  abbrev Finishes : Program → Type 0
  Finishes p =
      (l : List (String × Value)) (m again : Machine)
      → IsOld l m.ctx.ordinals
      → Holding id l m.ctx.ordinals m
      → again.ctx.ordinals ≡ m.ctx.ordinals
      → Covers id (perform rt p m).1.db again
      → (perform rt p m).0 ≡ ok v
      → IsAnswered v again (perform later p again)

  module _ (name : String) (fn : Callable) (i : StepIdempotency) (verify : Option Callable)
      (max_attempts : Option ℕ) (kwargs : Dict) (next : Value → Program)
      (body : (token : Uuid) → IsQuiet id (invoke fn (some token) kwargs))
      (answers : (token : Uuid) (f : Callable)
        → verify ≡ some f
        → IsQuiet id (invoke f (some token) kwargs))
      (clean : (v : Value) → IsClean rt (next v)) (l : List (String × Value)) (m again : Machine)
      (old : IsOld l m.ctx.ordinals) (h : Holding id l m.ctx.ordinals m)
      (same_ordinals : again.ctx.ordinals ≡ m.ctx.ordinals) where
    abbrev ran : Reply (Value × Bool) × Machine
    ran = run_step rt name fn i verify max_attempts kwargs m

    abbrev key : String
    key = key_of rt name m

    -- With the first step replayed, the attempt answers as the rest of it does.
    then_step-IsAnswered :
        (w : Value)
        → lookup key again.ctx.completed ≡ some w
        → IsAnswered v
            (counted_replay (after_key name again))
            (perform later (next w) (counted_replay (after_key name again)))
        → IsAnswered v again
            (perform later (then_step name fn i verify max_attempts kwargs next) again)
    unfolding next_key
    then_step-IsAnswered w held answered =
        subst (IsAnswered v again)
          (sym (
            perform-step later name fn i verify max_attempts kwargs next again
            ∙ ap (λ (x : Reply (Value × Bool) × Machine). perform_on later next x.0 x.1)
                (replayed rt guard later name fn i verify max_attempts kwargs next body answers
                  clean l m again old h same_ordinals w held)))
          answered

    step-Finishes :
        (r : Reply (Value × Bool)) (n : Machine)
        → ran ≡ (r, n)
        → Covers id (perform_on rt next r n).1.db again
        → (perform_on rt next r n).0 ≡ ok v
        → ((w : Value) → Finishes (next w))
        → IsAnswered v again
            (perform later (then_step name fn i verify max_attempts kwargs next) again)
    step-Finishes (ok (w, executed)) n same covers finished rest =
        let (holds, olds) =
          returned rt guard name fn i verify max_attempts kwargs next body answers l m old h w
            executed n same in
        let end = remains rt guard (next w) (clean w) ((key, w) ∷ l) n olds holds in
        then_step-IsAnswered w (covers key w (end.kept key w end.results.0)) (
          rest w ((key, w) ∷ l) n (counted_replay (after_key name again)) olds holds
            (next_ordinals rt guard later name fn i verify max_attempts kwargs next body answers
                clean l m again old h same_ordinals
              ∙ sym (
                  ordinals_after rt guard later name fn i verify max_attempts kwargs next body
                    answers clean l m again old h same_ordinals (ok (w, executed)) n same))
            (still-Covers rt guard later name fn i verify max_attempts kwargs next body answers
              clean l m again old h same_ordinals (perform rt (next w) n).1.db covers)
            finished)
    step-Finishes (raised e) n same covers finished rest = absurd (cc finished)
    step-Finishes crashed n same covers finished rest = absurd (cc finished)

  finishes : (p : Program) → IsClean rt p → Finishes p
  unfolding perform
  finishes (finish w) clean l m again old h same covers finished = (finished, refl, refl)
  finishes (then_step name fn i verify max_attempts kwargs next) (body, answers, rest) l m again old
        h same covers finished =
      let ran = run_step rt name fn i verify max_attempts kwargs m in
      let split = perform-step rt name fn i verify max_attempts kwargs next m in
      step-Finishes name fn i verify max_attempts kwargs next body answers rest l m again old h same
        ran.0 ran.1 refl (subst (λ e. Covers id e.1.db again) split covers)
        (sym (ap (λ e. e.0) split) ∙ finished) (λ w. finishes (next w) (rest w))

-- If an attempt returned a value, a later attempt at the same program, over any later state of the
-- log, returns that value again; it runs no step and writes nothing, nobody interfering or not. So a
-- process that dies after the workflow has returned, and before that is noted, loses nothing. The
-- conditions are those of `resumed_trajectory`.
pub returned_again :
    (rt later : Runtime) (p : Program) (run run_later : RunRecord) (db db_later : Db)
    (schedule schedule_later : List Interference) (v : Value)
    → ((g : M Bool) → rt.lease_guard ≡ some g → IsQuiet rt.run_id g)
    → IsClean rt p
    → HasRun rt.run_id db
    → IsMonotone rt.run_id schedule
    → (perform rt p (attempt_at rt.run_id run db schedule)).0 ≡ ok v
    → Later rt.run_id (perform rt p (attempt_at rt.run_id run db schedule)).1.db db_later
    → IsAnswered v
        (attempt_at rt.run_id run_later db_later schedule_later)
        (perform later p (attempt_at rt.run_id run_later db_later schedule_later))
returned_again rt later p run run_later db db_later schedule schedule_later v guard clean h calm
      finished after =
    let id = rt.run_id in
    let first = attempt_at id run db schedule in
    finishes rt guard later v p clean [] first (attempt_at id run_later db_later schedule_later) tt
      (subst (λ o. Holding id [] o first) (sym (new_ordinals run (log_of id db)))
        (start-IsDurable id run db schedule h calm))
      (new_ordinals run_later (log_of id db_later) ∙ sym (new_ordinals run (log_of id db)))
      (λ k w r. (replay_faithful run_later (log_of id db_later) k).0 ∙ after.results k w r) finished
