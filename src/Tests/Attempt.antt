-- ===== src/Tests/Attempt.antt =====
-- Steps on concrete logs.
use anchor_runtime.Base.{show, Bool, true, none, some, [], ◌∷◌, ◌++◌, ◌≡◌, refl, lookup}
use anchor_runtime.Value.{obj, str, field, end}
use anchor_runtime.Model.{running}
use anchor_runtime.Postgres.Events.{appended}
use anchor_runtime.EventType.{step_completed}
use anchor_runtime.Exec.{ok, pure}
use anchor_runtime.Postgres.Tables.{to_run}
use anchor_runtime.Machine.{Machine}
use anchor_runtime.Callable.{Callable, token_arg, injected, passed, invoke}
use anchor_runtime.Callable.Injection.{own_token_passed}
use anchor_runtime.Context.Replay.{new_context}
use anchor_runtime.Context.Replay.Keys.{after_key}
use anchor_runtime.Context.Replay.State.{recorded, dangling, replay_faithful}
use anchor_runtime.Context.Guards.{Runtime}
use anchor_runtime.Provider.{response_to_dict}
use anchor_runtime.Context.Steps.Outcomes.{counted_replay}
use anchor_runtime.Context.Calls.{model}
use anchor_runtime.Context.Calls.Replayed.{model_replays}
use anchor_runtime.Tests.Fixtures.{
  response, run_row, db_with, first_event, context, machine, runtime, seven,
}

-- A runtime whose lease guard answers so.
abbrev guarded : Bool → Runtime
guarded owned = record runtime { lease_guard = some (pure owned) }

replay_faithful_example :
    (lookup "a#1" (new_context (to_run (run_row running)) (first_event.event ∷ [])).completed
      ≡ recorded "a#1" (first_event.event ∷ []) none)
    × (lookup "a#1" (new_context (to_run (run_row running)) (first_event.event ∷ [])).unresolved
        ≡ dangling "a#1" (first_event.event ∷ []) none)
replay_faithful_example = replay_faithful (to_run (run_row running)) (first_event.event ∷ []) "a#1"

own_token_passed_example :
    (invoke seven (some "t") end
      ≡ seven.body (injected seven (some "t") ++ passed seven (some "t") end))
    × (lookup "token" (injected seven (some "t") ++ passed seven (some "t") end)
        ≡ some (token_arg (some "t")))
own_token_passed_example = own_token_passed seven (some "t") end refl

-- A verifier that finds the outcome of the lost attempt.
abbrev finder : Callable
finder = record { params = "kwargs" ∷ []; var_keyword = true; body = λ args. pure (str "landed") }

abbrev after_recovery : Machine
after_recovery = record (machine running) {
  db =
      appended "r1" step_completed (some "refund#1")
        (field "result" (str "landed") (field "recovered_by" (str "verify") end)) (run_row running)
        (db_with running);
}

abbrev answered : Machine
answered = record (machine running) {
  ctx = record context { completed = ("model#1", obj (response_to_dict response)) ∷ [] };
}

model_replays_example :
    model runtime "model" [] none none 1024 answered
    ≡ (ok response, counted_replay (after_key "model" answered))
unfolding lookup show
model_replays_example = model_replays runtime "model" [] none none 1024 answered response refl
