-- ===== src/Tests/Commands.antt =====
-- The command line, the provider of the API and the heartbeat task on concrete inputs.
use anchor_runtime.Base.{◌<>◌, ◌≢◌, none, some, [], ◌∷◌, ◌≡◌, refl, arith, true}
use anchor_runtime.Value.{end}
use anchor_runtime.Model.{running}
use anchor_runtime.Errors.{other}
use anchor_runtime.Exec.{ok, raised, pure}
use anchor_runtime.Machine.{Machine, Interference, others}
use anchor_runtime.Provider.{ModelResponse}
use anchor_runtime.Provider.Anthropic.{Message, AnthropicProvider, text, tool_use, complete, join}
use anchor_runtime.Provider.Anthropic.Answers.{texts, calls_in, complete_answers}
use anchor_runtime.Postgres.Tables.{Db, find_run, to_run, find_queued}
use anchor_runtime.Postgres.Events.{events_of, order_by_seq}
use anchor_runtime.Postgres.Queue.{claim}
use anchor_runtime.Postgres.Queue.Lease.{owner}
use anchor_runtime.Cli.{Json, tail}
use anchor_runtime.Cli.Shown.{idle, run_lines, tail-exact}
use anchor_runtime.Worker.{heartbeat_task}
use anchor_runtime.Worker.Beats.{HasLease, claim-IsGentle, heartbeats_hold_lease}
use anchor_runtime.Postgres.Tables.{RunRow}
use anchor_runtime.Tests.Fixtures.{queue_row, db_with, context, machine, host, worker}

abbrev said : Message
said = record {
  content = text "I " ∷ tool_use "c1" "lookup" end ∷ text "look" ∷ [];
  stop_reason = none;
  input_tokens = 3;
  output_tokens = 4;
}

abbrev priced : AnthropicProvider
priced = record { model = "claude"; api_key = "k"; price_in = 3000000; price_out = 15000000 }

complete_answers_example :
    (r : ModelResponse) × (complete
        (λ key kwargs. pure said)
        priced
        []
        none
        none
        1024
        (machine running)
      ≡ (ok r, machine running))
    × (r.text ≡ join (texts said.content))
    × (r.tool_calls ≡ calls_in said.content)
    × (r.stop_reason ≢ "")
complete_answers_example =
    complete_answers (λ key kwargs. pure said) priced [] none none 1024 (machine running)
      (machine running) said refl

abbrev json : Json
json = record {
  dumps = λ v. "{}";
  dumps_indented = λ v. "{}";
  loads = λ s. ok end;
  parse_uuid = λ s. ok s;
}

shown_run :
    ((row : RunRow)
      → find_run "r1" (db_with running).runs ≡ some row
      → tail host json "r1" (idle host json (db_with running) context [] []) ≡ (
        ok tt,
        idle host json
            (db_with running)
            context
            (run_lines host json
              (to_run row)
              (order_by_seq (events_of "r1" (db_with running).events)))
            [],
      ))
    × (find_run "r1" (db_with running).runs ≡ none
        → tail host json "r1" (idle host json (db_with running) context [] []) ≡ (
          raised (other "Exit" "1"),
          idle host json (db_with running) context [] (("no such run: " <> "r1") ∷ []),
        ))
shown_run = tail-exact host json "r1" "r1" (db_with running) context [] [] refl

-- The run was claimed just now.
abbrev leased_db : Db
leased_db = record (db_with running) {
  queue = record queue_row { locked_until = some 30000010 } ∷ [];
}

-- Another worker polls before each call of the heartbeat task.
abbrev rival : Interference
rival = others (λ db. (claim "w2" 30000000 db).1)

abbrev watched : Machine
watched = record (machine running) { db = leased_db; schedule = rival ∷ rival ∷ rival ∷ [] }

leased_db-HasLease : HasLease "r1" "w1" 5000000 leased_db
unfolding find_queued
leased_db-HasLease = record {
  keyed = (refl, tt);
  row = record queue_row { locked_until = some 30000010 };
  until = 30000010;
  found = refl;
  mine = refl;
  locked = refl;
  lasts = omega arith;
}

heartbeats_hold_lease_example :
    ((heartbeat_task worker "r1" 2 watched).0 ≡ ok true)
    × (owner "r1" (heartbeat_task worker "r1" 2 watched).1.db ≡ some "w1")
heartbeats_hold_lease_example =
    heartbeats_hold_lease worker "r1" 2 watched (omega arith)
      (
        claim-IsGentle "r1" "w1" "w2" 30000000 30000000,
        (
          claim-IsGentle "r1" "w1" "w2" 30000000 30000000,
          (claim-IsGentle "r1" "w1" "w2" 30000000 30000000, tt),
        ),
      )
      leased_db-HasLease
