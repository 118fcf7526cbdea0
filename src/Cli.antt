-- ===== src/Cli.antt =====
-- src/anchor/cli.py: the commands that submit a run, show a run and run the demo. The parsing of the
-- command line, set-up of the store and logging are not modelled.
pub mod Shown
use Prim.Native.String
use Prim.Native.String.{count}
use anchor_runtime.Base.{
  ℕ, zero, suc, ◌+◌, ◌-◌, String, ◌<>◌, show, Bool, true, false, Option, none, some, List, [], ◌∷◌,
  ◌++◌, or_else, ltb, ◌==◌, if◌then◌else◌,
}
use anchor_runtime.Value.{Value, bool, int, str, obj, Dict, end, field}
use anchor_runtime.Model.{Uuid, RunRecord, Event, Budget, status_value, run_to_api, usage_to_dict}
use anchor_runtime.Errors.{Host, Exn, other}
use anchor_runtime.Exec.{Reply, ok, raised, Exec, pure, raise, modify, or_raise, ◌>>=◌, ◌>>◌}
use anchor_runtime.Config.{Settings}
use anchor_runtime.Registry.{Registry}
use anchor_runtime.Provider.{ModelResponse, ModelProvider}
use anchor_runtime.Provider.Echo
use anchor_runtime.Provider.Echo.{EchoProvider}
use anchor_runtime.Postgres.Tables.{Sql}
use anchor_runtime.Postgres.Events.{load_events}
use anchor_runtime.Postgres.Runs.{submit_run, get_run}
use anchor_runtime.Postgres.Effects.{count_side_effects}
use anchor_runtime.Machine.{Machine, M, call}
use anchor_runtime.Engine.{Outcome}
use anchor_runtime.Worker.{Worker, WorkerStats, no_stats, run_once}
use anchor_runtime.Api.{key_or}

-- The machine, and the lines written to the terminal so far.
pub record Console : Type 0 where
  pub machine : Machine
  pub out : List String
  pub err : List String

-- `await` of a coroutine of the runtime
abbrev pub run : {A : Type 0} → M A → Exec Console A
run m c = let (r, n) = m c.machine in (r, record c { machine = n })

-- `typer.echo`
abbrev pub print : String → Exec Console Unit
print line = modify (λ c. record c { out = c.out ++ line ∷ [] })

abbrev pub print_error : String → Exec Console Unit
print_error line = modify (λ c. record c { err = c.err ++ line ∷ [] })

-- The option of the command `worker`: `if concurrency:` the settings are changed.
unfoldable pub with_concurrency : Option ℕ → Settings → Settings
with_concurrency none settings = settings
with_concurrency (some zero) settings = settings
with_concurrency (some (suc n)) settings = record settings { worker_concurrency = suc n }

-- `s[:n]`
unfoldable pub take_chars : ℕ → String → String
take_chars zero s = ""
take_chars (suc n) String.[] = ""
take_chars (suc n) (String.◌∷◌ c s) = String.◌∷◌ c (take_chars n s)

unfoldable pub repeat : ℕ → String → String
repeat zero s = ""
repeat (suc n) s = s <> repeat n s

-- `f"{s:<n}"` and `f"{s:>n}"`
abbrev pub pad_right : ℕ → String → String
pad_right n s = s <> repeat (n - count s) " "

abbrev pub pad_left : ℕ → String → String
pad_left n s = repeat (n - count s) " " <> s

-- `if len(detail) > 140: detail = detail[:137] + "..."`
unfoldable pub shorten : String → String
unfolding take_chars
shorten detail = if ltb 140 (count detail) then take_chars 137 detail <> "..." else detail

-- `json.dumps` and `json.dumps(…, indent=2, default=str)` of a value, `json.loads` of a document
-- (with its exception), and `uuid.UUID` of a text (with its exception).
pub record Json : Type 0 where
  pub dumps : Value → String
  pub dumps_indented : Value → String
  pub loads : String → Reply Dict
  pub parse_uuid : String → Reply Uuid

module _ (host : Host) (json : Json) where
  -- `_format_run`
  unfoldable pub format_run : RunRecord → String
  unfolding repeat
  format_run r =
      "run "
      <> r.run_id
      <> "  workflow="
      <> r.workflow
      <> "  status="
      <> status_value r.status
      <> "  attempt="
      <> show r.attempt
      <> ("  usage=" <> json.dumps (obj (usage_to_dict r.usage)) <> "\n" <> repeat 96 "-")

  -- `_format_event`
  unfoldable pub format_event : Event → String
  unfolding shorten repeat
  format_event e =
      "  "
      <> pad_left 3 (show e.seq)
      <> "  "
      <> pad_right 20 e.type
      <> "  "
      <> pad_right 28 (dash_for e.step_key)
      <> ("  " <> shorten (json.dumps (obj e.payload)))
    where
      -- `event.step_key or "-"`
      dash_for : Option String → String
      dash_for none = "-"
      dash_for (some key) = if key == "" then "-" else key

  abbrev pub print_events : List Event → Exec Console Unit
  print_events [] = pure tt
  print_events (e ∷ es) = do print (format_event e); print_events es

  -- `run.attribute` of a run that is None
  abbrev no_attribute : String → Exn
  no_attribute name =
      other "AttributeError" ("'NoneType' object has no attribute " <> host.repr_str name)

  -- `submit`; `id` and `new_key` are the identifiers that the database and `uuid4` generate.
  unfoldable pub submit :
      Uuid
      → String
      → String
      → String
      → Option String
      → Option ℕ
      → Option ℕ
      → Option ℕ
      → Exec Console Unit
  submit id new_key workflow payload key max_tokens max_tool_calls max_wall_seconds = do
    input ← (λ c. (json.loads payload, c))
    found ← run (
        call (
          submit_run id workflow input (key_or new_key key) (record {
            max_tokens = max_tokens;
            max_tool_calls = max_tool_calls;
            max_model_calls = none;
            max_wall_seconds = max_wall_seconds;
            max_cost_usd = none;
          })))
    print (json.dumps_indented (obj (field "created" (bool found.1) (run_to_api host.iso found.0))))

  abbrev pub show_found : String → Uuid → Option RunRecord → Exec Console Unit
  show_found text id none = do print_error ("no such run: " <> text); raise (other "Exit" "1")
  show_found text id (some r) = do
    print (format_run r)
    events ← run (call (load_events id))
    print_events events

  -- `tail`
  unfoldable pub tail : String → Exec Console Unit
  unfolding format_run format_event
  tail text = do
    id ← (λ c. (json.parse_uuid text, c))
    found ← run (call (get_run id))
    show_found text id found

  abbrev pub demo_input : String → ℕ → Dict
  demo_input payment_id amount_cents =
      field "payment_id" (str payment_id)
        (field "amount_cents" (int amount_cents) (field "reason" (str "customer request") end))

  abbrev pub demo_budget : Budget
  demo_budget = record {
    max_tokens = some 50000;
    max_tool_calls = some 10;
    max_model_calls = none;
    max_wall_seconds = some 120000000;
    max_cost_usd = none;
  }

  abbrev pub demo_echo : String → ℕ → EchoProvider
  demo_echo payment_id amount_cents = record {
    plan = "lookup_payment" ∷ "issue_refund" ∷ "notify_customer" ∷ [];
    arguments = [];
    final_text = "Refunded " <> show amount_cents <> " cents on " <> payment_id <> ".";
    arguments_from_input = true;
    latency_seconds = 0;
    fail_first_n = 0;
    failures = 0;
  }

  abbrev pub summary_line : Option Outcome → ℕ → Exec Console Unit
  summary_line none refunds = raise (no_attribute "status")
  summary_line (some o) refunds = print (
      "\nstatus="
      <> status_value o.status
      <> " executed="
      <> show o.executed_steps
      <> " replayed="
      <> show o.replayed_steps
      <> (" refunds_recorded=" <> show refunds))

  abbrev pub print_run : Option RunRecord → Exec Console Unit
  print_run none = raise (no_attribute "run_id")
  print_run (some r) = print (format_run r)

  -- `demo`; `worker` is `Worker(store=store, provider=…)`, and `as_provider` how the worker calls the
  -- scripted provider.
  unfoldable pub demo :
      (EchoProvider → ModelProvider)
      → (ModelProvider → Worker)
      → Uuid
      → String
      → String
      → ℕ
      → Exec Console Unit
  unfolding format_run format_event
  demo as_provider worker id new_key payment_id amount_cents = do
    found ← run (
        call (
          submit_run id "refund_agent" (demo_input payment_id amount_cents) ("demo-" <> new_key)
            demo_budget))
    print ("submitted run " <> found.0.run_id <> "\n")
    let w = worker (as_provider (demo_echo payment_id amount_cents))
    done ← run (run_once w no_stats)
    final ← run (call (get_run found.0.run_id))
    print_run final
    events ← run (call (load_events found.0.run_id))
    print_events events
    refunds ← run (call (count_side_effects found.0.run_id "refund"))
    summary_line done.0 refunds
