-- ===== src/Context/Calls/Replayed.antt =====
-- A model call that an earlier attempt finished.
use anchor_runtime.Base.{ℕ, ◌+◌, String, Option, none, some, List, ◌≡◌, refl, lookup}
use anchor_runtime.Value.{Value, obj, end}
use anchor_runtime.Model.{at_least_once}
use anchor_runtime.Exec.{ok}
use anchor_runtime.Machine.{Machine}
use anchor_runtime.Provider.{ModelResponse, response_to_dict}
use anchor_runtime.Provider.RoundTrip.{response_round_trip}
use anchor_runtime.Context.Replay.{next_key, step_key}
use anchor_runtime.Context.Replay.Keys.{ordinal, after_key}
use anchor_runtime.Context.Guards.{Runtime}
use anchor_runtime.Context.Steps.Outcomes.{counted_replay, completed_step_replays}
use anchor_runtime.Context.Calls.{model, model_body}

-- A model call whose response the log has is answered with that very response, whatever the
-- messages are now: the provider is not asked, the usage does not grow, and nothing is written.
pub model_replays :
    (rt : Runtime) (name : String) (messages : List Value) (tools : Option (List Value))
    (system : Option String) (max_tokens : ℕ) (m : Machine) (r : ModelResponse)
    → lookup (step_key name (ordinal name m + 1)) m.ctx.completed ≡ some (obj (response_to_dict r))
    → model rt name messages tools system max_tokens m ≡ (ok r, counted_replay (after_key name m))
unfolding model next_key
model_replays rt name messages tools system max_tokens m r h =
    rw
      (
        completed_step_replays rt (step_key name (ordinal name m + 1))
            (model_body rt messages tools system max_tokens) at_least_once none none end
            (after_key name m) (obj (response_to_dict r)) h,
        response_round_trip r,
      )
      refl
