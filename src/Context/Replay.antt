-- ===== src/Context/Replay.antt =====
-- The constructor of `RunContext`, which rebuilds the state of the steps from the log, and the
-- allocation of step keys.
pub mod Keys
pub mod State
use anchor_runtime.Base.{
  ℕ, ◌+◌, String, ◌<>◌, show, Option, none, some, List, [], ◌∷◌, lookup, insert, erase, or_else,
  ◌==◌, if◌then◌else◌,
}
use anchor_runtime.Value.{Value, null, str, Dict, get_or}
use anchor_runtime.Model.{Event, RunRecord}
use anchor_runtime.EventType.{step_started, step_completed, step_failed}
use anchor_runtime.Exec.{ok}
use anchor_runtime.Machine.{Context, M}

abbrev pub replay_step : String → Event → Context → Context
replay_step key event c =
    if event.type == step_started
    then record c { unresolved = insert key (get_or "token" (str "") event.payload) c.unresolved }
    else if event.type == step_completed
    then record c {
      completed = insert key (get_or "result" null event.payload) c.completed;
      unresolved = erase key c.unresolved;
    }
    else if event.type == step_failed
    then record c { unresolved = erase key c.unresolved }
    else c

abbrev pub replay_event : Option String → Event → Context → Context
replay_event none event c = c
replay_event (some key) event c = replay_step key event c

-- `_build_replay_state`
unfoldable pub build_replay_state : List Event → Context → Context
build_replay_state [] c = c
build_replay_state (e ∷ es) c = build_replay_state es (replay_event e.step_key e c)

abbrev pub blank_context : RunRecord → Context
blank_context run = record {
  budget = run.budget;
  usage = run.usage;
  run_created_at = run.created_at;
  ordinals = [];
  completed = [];
  unresolved = [];
  replayed_steps = 0;
  executed_steps = 0;
}

-- `RunContext.__init__`
unfoldable pub new_context : RunRecord → List Event → Context
unfolding build_replay_state
new_context run events = build_replay_state events (blank_context run)

abbrev pub step_key : String → ℕ → String
step_key name n = name <> "#" <> show n

-- The Nth call for a name gets the key `name#N`.
unfoldable pub next_key : String → M String
next_key name m =
    let n = or_else (lookup name m.ctx.ordinals) 0 + 1 in
    (
      ok (step_key name n),
      record m { ctx = record m.ctx { ordinals = insert name n m.ctx.ordinals } },
    )
