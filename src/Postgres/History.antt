-- ===== src/Postgres/History.antt =====
-- The calls of `PostgresStore` that write, as data: what any number of workers and clients do to the
-- tables, in any order.
pub mod WellFormed
pub mod Kept
pub mod Grows
pub mod Growth
use anchor_runtime.Base.{ℕ, String, Option, List, [], ◌∷◌}
use anchor_runtime.Value.{Value, Dict}
use anchor_runtime.Model.{Uuid, RunStatus, Budget, Usage}
use anchor_runtime.Postgres.Tables.{Db}
use anchor_runtime.Postgres.Events.{append_event}
use anchor_runtime.Postgres.Runs.{submit_run, set_status, bump_attempt, save_usage, request_cancel}
use anchor_runtime.Postgres.Queue.Heartbeat.{QueueCall, perform}
use anchor_runtime.Postgres.Effects.{record_side_effect}

-- One call of the store; `queue` holds those on the queue, and the passing of time.
pub data StoreCall : Type 0 where
  submit : Uuid → String → Dict → String → Budget → StoreCall
  append : Uuid → String → Option String → Dict → StoreCall
  status : Uuid → RunStatus → Value → Option Dict → StoreCall
  attempt : Uuid → StoreCall
  usage : Uuid → Usage → StoreCall
  cancel : Uuid → StoreCall
  effect : Uuid → Uuid → String → Dict → StoreCall
  queue : QueueCall → StoreCall

-- The tables after the call.
abbrev pub after : StoreCall → Db → Db
after (submit id workflow payload key budget) db = (submit_run id workflow payload key budget db).1
after (append id type key payload) db = (append_event id type key payload db).1
after (status id s result error) db = (set_status id s result error db).1
after (attempt id) db = (bump_attempt id db).1
after (usage id u) db = (save_usage id u db).1
after (cancel id) db = (request_cancel id db).1
after (effect token run kind payload) db = (record_side_effect token run kind payload db).1
after (queue c) db = perform c db

-- The tables after the calls, in this order.
unfoldable pub history : List StoreCall → Db → Db
history [] db = db
history (c ∷ cs) db = history cs (after c db)

-- The tables as the schema leaves them.
abbrev pub no_rows : ℕ → Db
no_rows now = record { now = now; runs = []; events = []; queue = []; effects = [] }
