-- ===== src/Tests/Fixtures.antt =====
-- The data of the tests: one started run, leased by the worker "w1".
use anchor_runtime.Base.{
  ◌<>◌, Bool, true, false, none, some, [], ◌∷◌, ◌≡◌, refl, ◌==◌, map, if◌then◌else◌,
}
use anchor_runtime.Value.{field, int, str, end}
use anchor_runtime.Model.{RunStatus, Budget, no_usage}
use anchor_runtime.EventType.{run_started}
use anchor_runtime.Errors.{Host, other}
use anchor_runtime.Exec.{pure, raise}
use anchor_runtime.Config.{settings}
use anchor_runtime.Postgres.Tables.{RunRow, EventRow, QueueRow, Db, find_run}
use anchor_runtime.Postgres.Events.Gapless.{IsGapless, seqs, count_up, counter}
use anchor_runtime.Machine.{Context, Machine}
use anchor_runtime.Callable.{Callable}
use anchor_runtime.Registry
use anchor_runtime.Provider.{ModelResponse, ModelProvider}
use anchor_runtime.Context.Guards.{Runtime}
use anchor_runtime.Engine.{Engine}
use anchor_runtime.Worker.{Worker}

abbrev pub no_limits : Budget
no_limits = record {
  max_tokens = none;
  max_tool_calls = none;
  max_model_calls = none;
  max_wall_seconds = none;
  max_cost_usd = none;
}

abbrev pub run_row : RunStatus → RunRow
run_row status = record {
  run_id = "r1";
  workflow = "refund";
  input = end;
  idempotency_key = "k1";
  status = status;
  event_seq = 1;
  attempt = 1;
  budget = end;
  usage = end;
  result = none;
  error = none;
  cancel_requested = false;
  created_at = 0;
  updated_at = 0;
  finished_at = none;
}

abbrev pub first_event : EventRow
first_event = record {
  run_id = "r1";
  event = record { seq = 1; type = run_started; step_key = none; payload = end; created_at = 0 };
}

abbrev pub queue_row : QueueRow
queue_row = record {
  run_id = "r1";
  visible_at = 0;
  locked_until = some 100;
  worker_id = some "w1";
  attempts = 1;
}

abbrev pub empty_db : Db
empty_db = record { now = 10; runs = []; events = []; queue = []; effects = [] }

abbrev pub db_with : RunStatus → Db
db_with status = record empty_db {
  runs = run_row status ∷ [];
  events = first_event ∷ [];
  queue = queue_row ∷ [];
}

one_event :
    (b : Bool) (row : RunRow)
    → row.event_seq ≡ 1
    → seqs (map (λ e. e.event) (if b then first_event ∷ [] else []))
      ≡ count_up 1 (counter (if b then some row else none))
one_event true row h = rw h refl
one_event false row h = refl

pub db_with-IsGapless : (status : RunStatus) → IsGapless (db_with status)
unfolding find_run
db_with-IsGapless status id = one_event ("r1" == id) (run_row status) refl

abbrev pub context : Context
context = record {
  budget = no_limits;
  usage = no_usage;
  run_created_at = 0;
  ordinals = [];
  completed = ("paid#1", str "done") ∷ [];
  unresolved = ("refund#1", str "token") ∷ [];
  replayed_steps = 0;
  executed_steps = 0;
}

abbrev pub machine : RunStatus → Machine
machine status = record { db = db_with status; schedule = []; ctx = context }

abbrev pub host : Host
host = record {
  uuid5 = λ ns name. ns <> name;
  repr_str = λ s. "'" <> s <> "'";
  show_float = λ n. "1.0";
  iso = λ t. "2026-01-01";
  traceback = λ s. s;
}

abbrev pub provider : ModelProvider
provider = record {
  name = "silent";
  complete = λ messages tools system max_tokens. raise (other "RuntimeError" "no model");
}

abbrev pub runtime : Runtime
runtime = record {
  host = host;
  run_id = "r1";
  registry = Registry.empty;
  provider = provider;
  settings = settings;
  lease_guard = none;
}

abbrev pub engine : Engine
engine = record { host = host; provider = provider; registry = Registry.empty; settings = settings }

abbrev pub worker : Worker
worker = record { engine = engine; worker_id = "w1" }

-- A step that returns 7, and takes any arguments.
abbrev pub seven : Callable
seven = record { params = "kwargs" ∷ []; var_keyword = true; body = λ args. pure (int 7) }

abbrev pub response : ModelResponse
response = record {
  text = "hi";
  tool_calls = record { id = "c1"; name = "lookup"; arguments = field "id" (int 3) end } ∷ [];
  stop_reason = "tool_use";
  input_tokens = 3;
  output_tokens = 4;
  cost_usd = 5;
  model = "echo";
}
