-- ===== src/Api.antt =====
-- src/anchor/api.py: the handlers of the HTTP API over runs. The parsing of requests is not modelled.
pub mod Answers
pub mod Pages
use anchor_runtime.Base.{
  ℕ, String, ◌<>◌, Bool, true, false, not, Option, none, some, List, [], ◌∷◌, map, contains, length,
  leb, ◌==◌, if◌then◌else◌,
}
use anchor_runtime.Value.{Value, bool, int, str, arr, obj, Dict, end, field, arr_of}
use anchor_runtime.Model.{
  Uuid, RunRecord, Event, Budget, budget_to_dict, budget_from_dict, status_value, run_to_api,
  event_to_api,
}
use anchor_runtime.Errors.{Host}
use anchor_runtime.Exec.{pure, ◌>>=◌, ◌>>◌}
use anchor_runtime.Registry.{Registry, workflow_names, join_names}
use anchor_runtime.Postgres.Events
use anchor_runtime.Postgres.Events.{load_events}
use anchor_runtime.Postgres.Runs
use anchor_runtime.Postgres.Runs.{request_cancel}
use anchor_runtime.Machine.{M, call}

-- A status code with a JSON body, or an `HTTPException` with its detail.
pub data Answer : Type 0 where
  answer : ℕ → Dict → Answer
  refused : ℕ → String → Answer

-- The body of a submission: `SubmitRunIn`.
pub record SubmitRunIn : Type 0 where
  pub workflow : String
  pub input : Dict
  pub budget : Budget

abbrev pub run_not_found : Answer
run_not_found = refused 404 "run not found"

-- `idempotency_key or str(uuid.uuid4())`
abbrev pub key_or : String → Option String → String
key_or new none = new
key_or new (some key) = if key == "" then new else key

-- 200 for a run that was there, 201 for a new one.
abbrev created_answer : Host → RunRecord × Bool → Answer
created_answer host (run, created) =
    answer (if created then 201 else 200) (field "created" (bool created) (run_to_api host.iso run))

abbrev repr_names : Host → List String → String
repr_names host names = "[" <> join_names (map host.repr_str names) <> "]"

module _ (host : Host) where
  -- `id` and `new_key` are the identifiers that the database and `uuid4` generate.
  unfoldable pub submit_run : Registry → Uuid → String → Option String → SubmitRunIn → M Answer
  submit_run registry id new_key key body =
      if not (contains body.workflow (workflow_names registry))
      then pure (
          refused 422 (
            "unknown workflow "
            <> host.repr_str body.workflow
            <> "; known: "
            <> repr_names host (workflow_names registry)))
      else (do
        found ← call (
            Runs.submit_run id body.workflow body.input (key_or new_key key)
              (budget_from_dict (budget_to_dict body.budget)))
        pure (created_answer host found))

  abbrev pub min : ℕ → ℕ → ℕ
  min a b = if leb a b then a else b

  unfoldable pub list_runs : ℕ → Option String → M Answer
  list_runs limit status = do
    runs ← call (Runs.list_runs (min limit 200) status)
    pure
        (answer 200 (field "runs" (arr (arr_of (map (λ r. obj (run_to_api host.iso r)) runs))) end))

  abbrev run_answer : Option RunRecord → Answer
  run_answer none = run_not_found
  run_answer (some run) = answer 200 (run_to_api host.iso run)

  unfoldable pub get_run : Uuid → M Answer
  get_run id = do run ← call (Runs.get_run id); pure (run_answer run)

  abbrev events_answer : Uuid → List Event → Answer
  events_answer id events = answer 200 (
      field "run_id" (str id) (
        field "count" (int (length events))
          (field "events" (arr (arr_of (map (λ e. obj (event_to_api host.iso e)) events))) end)))

  abbrev events_if : Uuid → Option RunRecord → M Answer
  events_if id none = pure run_not_found
  events_if id (some run) = do events ← call (load_events id); pure (events_answer id events)

  unfoldable pub get_events : Uuid → M Answer
  get_events id = do run ← call (Runs.get_run id); events_if id run

  abbrev pub cancel_answer : Uuid → RunRecord → Bool → Answer
  cancel_answer id run true =
      answer 200 (field "run_id" (str id) (field "cancel_requested" (bool true) end))
  cancel_answer id run false =
      refused 409 ("run is already " <> status_value run.status <> " and cannot be cancelled")

  abbrev cancel_if : Uuid → Option RunRecord → M Answer
  cancel_if id none = pure run_not_found
  cancel_if id (some run) = do
    accepted ← call (request_cancel id)
    pure (cancel_answer id run accepted)

  unfoldable pub cancel_run : Uuid → M Answer
  cancel_run id = do run ← call (Runs.get_run id); cancel_if id run
