-- ===== src/Tests/Refunds.antt =====
-- The example agent on concrete conversations.
use anchor_runtime.Base.{
  arith, show, Bool, true, none, some, List, [], ◌∷◌, ◌≡◌, refl, lookup, insert, length,
}
use anchor_runtime.Value.{Value, int, str, field, end, Dict}
use anchor_runtime.Model.{running}
use anchor_runtime.Exec.{pure}
use anchor_runtime.Postgres.Tables.{EffectRow}
use anchor_runtime.Machine.{crash, others, Context, Machine, M, call}
use anchor_runtime.Machine.Keeps.{Holds, Keeps, call-Keeps}
use anchor_runtime.Machine.Preserves.{only_guard-Preserves}
use anchor_runtime.Postgres.Queue.{heartbeat}
use anchor_runtime.Registry.{tool, register_tool}
use anchor_runtime.Provider.{ModelResponse, ModelProvider}
use anchor_runtime.Provider.Echo.{EchoProvider, turn_of, respond}
use anchor_runtime.Provider.Echo.Plan.{asked_for, plan_followed}
use anchor_runtime.Context.Guards.{Runtime}
use anchor_runtime.Context.Steps.{step_with_key}
use anchor_runtime.Context.Calls.{call_tool}
use anchor_runtime.Context.Keeps.Crashed.{IsOpen}
use anchor_runtime.Refund.Tools.{Printer}
use anchor_runtime.Refund.Agent.{agent_runtime, assistant_message, user_message}
use anchor_runtime.Refund.Covered.{AllCovered}
use anchor_runtime.Worker.{process, no_stats}
use anchor_runtime.Refund.Worker.{refund_worker, worker_refunds_covered}
use anchor_runtime.Refund.Crashed.{no_second_refund}
use anchor_runtime.Postgres.Tables.{find?, find_run, update_run}
use anchor_runtime.Postgres.Events.{append_event}
use anchor_runtime.Postgres.Effects.{find_effect, insert_effect, record_side_effect}
use anchor_runtime.Postgres.Runs.{is_cancel_requested, save_usage}
use anchor_runtime.Budget.{check}
use anchor_runtime.Callable.{invoke}
use anchor_runtime.Value.{is_json}
use anchor_runtime.Context.Replay.{next_key}
use anchor_runtime.Tests.Fixtures.{engine, worker, context, machine, runtime, response}

abbrev printer : Printer
printer = record { repr = λ v. "v"; text = λ v. "v"; dumps = λ v. "{}" }

abbrev wanted : Dict
wanted = field "payment_id" (str "pay_001") (field "amount_cents" (int 4999) end)

-- A model that asks for the refund, again and again.
abbrev insistent : ModelProvider
insistent = record {
  name = "insistent";
  complete = λ messages tools system max_tokens. pure (record response {
    tool_calls = record { id = "c1"; name = "issue_refund"; arguments = wanted } ∷ [];
  });
}

-- The lease guard of a worker.
abbrev owned : M Bool
owned = call (heartbeat "r1" "w1" 30)

abbrev asking : Runtime
asking = record runtime { provider = insistent; lease_guard = some owned }

owned-Keeps :
    (E : List EffectRow → Type 0) (C : Context → Type 0) (g : M Bool)
    → asking.lease_guard ≡ some g
    → Keeps E C g
unfolding heartbeat
owned-Keeps E C g same =
    only_guard-Preserves (Holds E C) owned g same
      (call-Keeps E C (heartbeat "r1" "w1" 30) (λ db h. h))

-- The clock moves before the first call of the store, and the process dies at the second.
abbrev fresh : Context
fresh = record context { completed = []; unresolved = [] }

abbrev doomed : Machine
doomed = record (machine running) {
  ctx = fresh;
  schedule = others (λ db. record db { now = 99 }) ∷ crash ∷ [];
}

worker_refunds_covered_example :
    AllCovered
      (process
        (refund_worker printer 0
          (record worker { engine = record engine { provider = asking.provider } })
          "r1")
        "r1"
        no_stats
        doomed).1.db.effects
worker_refunds_covered_example =
    worker_refunds_covered printer 0
      (record worker { engine = record engine { provider = asking.provider } }) "r1" no_stats doomed
      (λ a b c d s h. h) ((λ db h. h), tt) tt

abbrev NoEffects : List EffectRow → Type 0
NoEffects es = es ≡ []

-- The last attempt died within the refund.
abbrev torn : Machine
torn = record (machine running) {
  ctx = record context { completed = []; unresolved = ("tool:issue_refund#1", str "token") ∷ [] };
}

no_second_refund_example :
    (call_tool (agent_runtime printer asking 0) "issue_refund" wanted torn).1.db.effects ≡ []
unfolding lookup insert register_tool tool show
no_second_refund_example =
    no_second_refund NoEffects printer (agent_runtime printer asking 0) 0 wanted
      (λ key. owned-Keeps NoEffects (IsOpen key)) torn (str "token") refl tt refl refl refl

abbrev scripted : EchoProvider
scripted = record {
  plan = "lookup_payment" ∷ "issue_refund" ∷ [];
  arguments = [];
  final_text = "done";
  arguments_from_input = true;
  latency_seconds = 0;
  fail_first_n = 0;
  failures = 0;
}

-- What the agent adds to the messages, with empty results.
abbrev one_turn : List Value → ModelResponse → List Value
one_turn ms r = assistant_message r ∷ user_message (str "[]") ∷ []

plan_followed_example :
    asked_for (respond (λ v. 4) (λ s. none) scripted) one_turn 3 (user_message (str "{}") ∷ [])
    ≡ scripted.plan
unfolding turn_of
plan_followed_example =
    plan_followed (λ v. 4) (λ s. none) scripted one_turn (λ ms r. refl) 3
      (user_message (str "{}") ∷ []) refl (omega arith)

-- A refund that is asked for once is paid once.
paid_once :
    length
      (call_tool
        (agent_runtime printer asking 0)
        "issue_refund"
        wanted
        (record doomed { schedule = [] })).1.db.effects
    ≡ 1
unfolding call_tool register_tool tool lookup insert next_key step_with_key heartbeat
    anchor_runtime.Postgres.Tables.find? is_cancel_requested find_run check append_event invoke
    record_side_effect insert_effect find_effect is_json update_run save_usage
paid_once = refl
