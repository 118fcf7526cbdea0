-- ===== src/Engine/Ended.antt =====
-- An execution of a run that has ended.
use anchor_runtime.Base.{Bool, true, Option, none, some, [], ◌≡◌, refl, ◌∙◌, eq_refl}
use anchor_runtime.Value.{bool, neg, float, arr, obj, opaque, Value, is_json, null, int, str}
use anchor_runtime.EventType.{run_completed}
use anchor_runtime.Model.{Uuid, RunStatus, completed, terminal}
use anchor_runtime.Exec.{ok}
use anchor_runtime.Postgres.Tables.{unwrap_result, RunRow, find_run, update_run, to_run}
use anchor_runtime.Postgres.Tables.Find.{find_run-update}
use anchor_runtime.Postgres.Events.{next_seq}
use anchor_runtime.Postgres.Events.Gapless.{append-succeeds}
use anchor_runtime.Postgres.Runs.{
  coalesce, wrap_result, with_status, get_run, set_status, save_usage, with_usage,
}
use anchor_runtime.Machine.{Machine, M, call}
use anchor_runtime.Context.Guards.{Runtime, append}
use anchor_runtime.Engine.{
  runtime, Engine, Outcome, completed_payload, outcome, complete, execute, recorded_outcome,
}
use anchor_runtime.Engine.Settled.{IsSettled}
use anchor_runtime.Engine.Results.{half_done, completed-json}

-- With nobody interfering, an attempt at a run that has ended is none: the recorded outcome is
-- returned, and nothing is written.
ended_run_untouched :
    (engine : Engine) (run_id : Uuid) (guard : Option (M Bool)) (m : Machine) (row : RunRow)
    → m.schedule ≡ []
    → find_run run_id m.db.runs ≡ some row
    → terminal row.status ≡ true
    → execute engine run_id guard m ≡ (ok (recorded_outcome engine run_id guard (to_run row)), m)
unfolding execute call get_run terminal to_run
ended_run_untouched engine run_id guard m row quiet found over = rw (quiet, found, over) refl

unwrap-wrap : (v : Value) → unwrap_result (coalesce (wrap_result v) none) ≡ v
unwrap-wrap null = refl
unwrap-wrap (bool b) = refl
unwrap-wrap (int n) = refl
unwrap-wrap (neg n) = refl
unwrap-wrap (float n) = refl
unwrap-wrap (str s) = refl
unwrap-wrap (arr vs) = refl
unwrap-wrap (obj d) = refl
unwrap-wrap (opaque t) = refl

module _ (engine : Engine) (id : Uuid) (guard : Option (M Bool)) (s : RunStatus) (result : Value)
    (m : Machine) (r : RunRow) where
  abbrev rt : Runtime
  rt = runtime engine id guard

  -- The row after each of the three writes of `complete`.
  abbrev counted_row : RunRow
  counted_row = next_seq m.db r

  abbrev used_row : RunRow
  used_row = with_usage m.ctx.usage m.db counted_row

  abbrev final_row : RunRow
  final_row = with_status completed result none m.db used_row

  abbrev final : Machine
  final =
      let n = half_done rt s r m in
      record n {
        db = record n.db {
          runs = update_run id (with_status completed result none n.db) n.db.runs;
        };
      }

  complete_exact :
      is_json result ≡ true
      → find_run id m.db.runs ≡ some r
      → IsSettled id s m
      → complete rt result m ≡ outcome rt completed result none final
  unfolding complete append call save_usage set_status
  complete_exact json found h =
      rw
        (
          h.quiet,
          append-succeeds id run_completed none (completed_payload rt m) m.db r
              (completed-json rt s m) h.gapless found,
          json,
        )
        refl

  find_final : find_run id m.db.runs ≡ some r → find_run id final.db.runs ≡ some final_row
  find_final found =
      find_run-update id id (with_status completed result none m.db) _ (λ x. refl)
      ∙ rw (eq_refl id, find_run-update id id (with_usage m.ctx.usage m.db) _ (λ x. refl))
          (rw (eq_refl id, find_run-update id id (next_seq m.db) m.db.runs (λ x. refl))
            (rw (eq_refl id, found) refl))

  -- A workflow has returned a JSON result, on a run that is there, whose row has no result yet, and
  -- with nobody interfering. The engine returns an outcome with the status completed, this result
  -- and no error. An execution of the run after that returns the outcome again, but with no step
  -- replayed or executed and with the error that the row had before, if any, and changes nothing.
  pub completed_again :
      is_json result ≡ true
      → IsSettled id s m
      → find_run id m.db.runs ≡ some r
      → r.result ≡ none
      → (n : Machine) × (o : Outcome) × (complete (runtime engine id guard) result m ≡ (ok o, n))
        × (o.status ≡ completed)
        × (o.result ≡ result)
        × (o.error ≡ none)
        × (execute engine id guard n
            ≡ (ok (record o { error = r.error; replayed_steps = 0; executed_steps = 0 }), n))
  unfolding to_run terminal
  completed_again json h found fresh =
      let again =
        ended_run_untouched engine id guard final final_row h.quiet (find_final found) refl in
      (
        final,
        _,
        complete_exact json found h,
        refl,
        refl,
        refl,
        again ∙ rw fresh (rw (unwrap-wrap result) refl),
      )
