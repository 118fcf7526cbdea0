-- ===== src/Context/Replay/State.antt =====
-- The rebuilt state of a step is what the last event about it says.
use anchor_runtime.Base.{
  String, Option, none, some, List, [], ◌∷◌, ◌≡◌, refl, ap, ◌∙◌, arith, lookup, lookup-insert,
  lookup-erase, ◌==◌, eq_iff, if◌then◌else◌,
}
use anchor_runtime.Value.{Value, null, str, get_or}
use anchor_runtime.Model.{Event, RunRecord}
use anchor_runtime.EventType.{step_started, step_completed, step_failed}
use anchor_runtime.Machine.{Context}
use anchor_runtime.Context.Replay.{replay_event, build_replay_state, blank_context, new_context}

-- What one event says about the step `key`.
pub data Mark : Type 0 where
  silent : Mark
  started : Value → Mark
  completed : Value → Mark
  failed : Mark

abbrev pub mark_of_type : Event → Mark
mark_of_type e =
    if e.type == step_started
    then started (get_or "token" (str "") e.payload)
    else if e.type == step_completed
    then completed (get_or "result" null e.payload)
    else if e.type == step_failed
    then failed
    else silent

abbrev pub mark_if_key : String → Option String → Event → Mark
mark_if_key key none e = silent
mark_if_key key (some k) e = if k == key then mark_of_type e else silent

abbrev pub mark : String → Event → Mark
mark key e = mark_if_key key e.step_key e

-- The result that the log records for the step, the last one if there are several.
abbrev pub newest : Mark → Option Value → Option Value
newest (completed v) old = some v
newest _ old = old

unfoldable pub recorded : String → List Event → Option Value → Option Value
recorded key [] old = old
recorded key (e ∷ es) old = recorded key es (newest (mark key e) old)

-- The token of the step if the last word about it is that it started.
abbrev open_after : Mark → Option Value → Option Value
open_after silent old = old
open_after (started t) old = some t
open_after (completed v) old = none
open_after failed old = none

unfoldable pub dangling : String → List Event → Option Value → Option Value
dangling key [] old = old
dangling key (e ∷ es) old = dangling key es (open_after (mark key e) old)

step_completed_lookup :
    (key k : String) (e : Event) (c : Context)
    → lookup key (replay_event (some k) e c).completed
      ≡ newest (mark_if_key key (some k) e) (lookup key c.completed)
step_completed_lookup key k e c =
    let v = get_or "result" null e.payload in
    ground (arith, lookup-insert k key v c.completed, eq_iff k key)

step_open_lookup :
    (key k : String) (e : Event) (c : Context)
    → lookup key (replay_event (some k) e c).unresolved
      ≡ open_after (mark_if_key key (some k) e) (lookup key c.unresolved)
step_open_lookup key k e c =
    let t = get_or "token" (str "") e.payload in
    ground
      (arith, lookup-insert k key t c.unresolved, lookup-erase k key c.unresolved, eq_iff k key)

completed_after :
    (key : String) (o : Option String) (e : Event) (c : Context)
    → lookup key (replay_event o e c).completed
      ≡ newest (mark_if_key key o e) (lookup key c.completed)
completed_after key none e c = refl
completed_after key (some k) e c = step_completed_lookup key k e c

open_lookup :
    (key : String) (o : Option String) (e : Event) (c : Context)
    → lookup key (replay_event o e c).unresolved
      ≡ open_after (mark_if_key key o e) (lookup key c.unresolved)
open_lookup key none e c = refl
open_lookup key (some k) e c = step_open_lookup key k e c

build_completed :
    (key : String) (es : List Event) (c : Context)
    → lookup key (build_replay_state es c).completed ≡ recorded key es (lookup key c.completed)
unfolding build_replay_state recorded
build_completed key [] c = refl
build_completed key (e ∷ es) c =
    build_completed key es (replay_event e.step_key e c)
    ∙ ap (recorded key es) (completed_after key e.step_key e c)

build_unresolved :
    (key : String) (es : List Event) (c : Context)
    → lookup key (build_replay_state es c).unresolved ≡ dangling key es (lookup key c.unresolved)
unfolding build_replay_state dangling
build_unresolved key [] c = refl
build_unresolved key (e ∷ es) c =
    build_unresolved key es (replay_event e.step_key e c)
    ∙ ap (dangling key es) (open_lookup key e.step_key e c)

-- A step counts as completed exactly with the result that the log records for it, and as
-- unresolved exactly if the last start or ending of it in the log is a start, with its token.
pub replay_faithful :
    (run : RunRecord) (events : List Event) (key : String)
    → (lookup key (new_context run events).completed ≡ recorded key events none)
      × (lookup key (new_context run events).unresolved ≡ dangling key events none)
unfolding new_context lookup
replay_faithful run events key = (
  build_completed key events (blank_context run),
  build_unresolved key events (blank_context run),
)
