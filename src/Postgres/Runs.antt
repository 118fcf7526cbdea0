-- ===== src/Postgres/Runs.antt =====
-- The methods of `PostgresStore` on the table `runs`.
pub mod Submit
pub mod Entered
pub mod Cancel
pub mod Numbering
use anchor_runtime.Base.{
  ℕ, ◌+◌, String, Bool, true, false, Option, none, some, List, [], ◌∷◌, ◌++◌, map, leb, ◌==◌, keep,
  take, is_some, ◌||◌, ◌&&◌, if◌then◌else◌,
}
use anchor_runtime.Value.{Value, is_json, is_json_dict, null, str, obj, Dict, end, field}
use anchor_runtime.Model.{
  Uuid, RunStatus, pending, terminal, status_value, Budget, budget_to_dict, Usage, usage_to_dict,
  RunRecord,
}
use anchor_runtime.Errors.{other}
use anchor_runtime.EventType.{run_started, cancel_requested}
use anchor_runtime.Exec.{ok, raised, crashed, pure, raise, gets, modify, ◌>>=◌, ◌>>◌}
use anchor_runtime.Postgres.Tables.{
  RunRow, QueueRow, Db, Sql, find?, find_run, find_key, find_queued, update_run, to_run,
  unique_violation, not_serialisable,
}
use anchor_runtime.Postgres.Events.{append_event}

-- `async with conn.transaction()`: an exception rolls the writes back.
abbrev pub transaction : {A : Type 0} → Sql A → Sql A
transaction m db =
    let (r, db') = m db in
    elim r [ ok a ↦ (ok a, db') | raised e ↦ (raised e, db) | crashed ↦ (crashed, db) ]

-- The row that `INSERT INTO runs` writes; the other columns have their defaults.
abbrev pub new_run : Uuid → String → Dict → String → Budget → Db → RunRow
new_run id workflow payload key budget db = record {
  run_id = id;
  workflow = workflow;
  input = payload;
  idempotency_key = key;
  status = pending;
  event_seq = 0;
  attempt = 0;
  budget = budget_to_dict budget;
  usage = end;
  result = none;
  error = none;
  cancel_requested = false;
  created_at = db.now;
  updated_at = db.now;
  finished_at = none;
}

abbrev pub inserted : RunRow → Db → Db
inserted row db = record db { runs = db.runs ++ row ∷ [] }

-- INSERT … ON CONFLICT (idempotency_key) DO NOTHING RETURNING *
unfoldable pub insert_run : RunRow → Sql (Option RunRow)
insert_run row db = elim (find_key row.idempotency_key db.runs) [
  | some r ↦ (ok none, db)
  | none ↦ elim (find_run row.run_id db.runs) [
    | some r ↦ (raised unique_violation, db)
    | none ↦ (ok (some row), inserted row db)
  ]
]

-- `_to_run` of a row that has to be there: on `None` the subscript raises.
abbrev to_run_of : Option RunRow → Sql RunRecord
to_run_of none = raise (other "TypeError" "'NoneType' object is not subscriptable")
to_run_of (some row) = pure (to_run row)

abbrev pub queued : Uuid → Db → Db
queued id db = record db {
  queue =
      db.queue
      ++ record {
        run_id = id;
        visible_at = db.now;
        locked_until = none;
        worker_id = none;
        attempts = 0;
      }
        ∷ [];
}

-- INSERT INTO run_queue
unfoldable pub enqueue_run : Uuid → Sql Unit
enqueue_run id db =
    if is_some (find_queued id db.queue)
    then (raised unique_violation, db)
    else (ok tt, queued id db)

abbrev pub started_payload : String → Dict → Budget → Dict
started_payload workflow payload budget =
    field "workflow" (str workflow)
      (field "input" (obj payload) (field "budget" (obj (budget_to_dict budget)) end))

abbrev created_or_existing :
    Uuid → String → Dict → String → Budget → Option RunRow → Sql (RunRecord × Bool)
created_or_existing id workflow payload key budget none = do
  run ← to_run_of (← gets (λ db. find_key key db.runs))
  pure (run, false)
created_or_existing id workflow payload key budget (some row) = do
  enqueue_run id
  append_event id run_started none (started_payload workflow payload budget)
  run ← to_run_of (← gets (λ db. find_run id db.runs))
  pure (run, true)

-- `id` is the fresh `uuid.uuid4()`.
unfoldable pub submit_run : Uuid → String → Dict → String → Budget → Sql (RunRecord × Bool)
submit_run id workflow payload key budget = transaction (do
  row ← insert_run (← gets (new_run id workflow payload key budget))
  created_or_existing id workflow payload key budget row)

abbrev map_option : {A B : Type 0} → (A → B) → Option A → Option B
map_option f none = none
map_option f (some a) = some (f a)

unfoldable pub get_run : Uuid → Sql (Option RunRecord)
get_run id = gets (λ db. map_option to_run (find_run id db.runs))

abbrev insert_by_age : RunRow → List RunRow → List RunRow
insert_by_age r [] = r ∷ []
insert_by_age r (s ∷ rs) =
    if leb s.created_at r.created_at then r ∷ s ∷ rs else s ∷ insert_by_age r rs

-- ORDER BY created_at DESC
abbrev newest_first : List RunRow → List RunRow
newest_first [] = []
newest_first (r ∷ rs) = insert_by_age r (newest_first rs)

abbrev has_status : Option String → RunRow → Bool
has_status none r = true
has_status (some s) r = s == "" || status_value r.status == s

unfoldable pub list_runs : ℕ → Option String → Sql (List RunRecord)
list_runs limit status =
    gets (λ db. map to_run (take limit (newest_first (keep (has_status status) db.runs))))

abbrev pub wrap_result : Value → Option Value
wrap_result null = none
wrap_result v = some (obj (field "value" v end))

-- COALESCE
abbrev pub coalesce : {A : Type 0} → Option A → Option A → Option A
coalesce none old = old
coalesce (some new) old = some new

abbrev pub with_status : RunStatus → Value → Option Dict → Db → RunRow → RunRow
with_status status result error db r = record r {
  status = status;
  result = coalesce (wrap_result result) r.result;
  error = coalesce error r.error;
  updated_at = db.now;
  finished_at = if terminal status then some db.now else r.finished_at;
}

abbrev pub is_json_error : Option Dict → Bool
is_json_error none = true
is_json_error (some error) = is_json_dict error

-- The client encodes the result and the error before it sends the statement.
unfoldable pub set_status : Uuid → RunStatus → Value → Option Dict → Sql Unit
unfolding is_json_dict
set_status id status result error db =
    if is_json result && is_json_error error
    then (ok tt, record db { runs = update_run id (with_status status result error db) db.runs })
    else (raised not_serialisable, db)

abbrev pub bumped : Db → RunRow → RunRow
bumped db r = record r { attempt = r.attempt + 1; updated_at = db.now }

-- NULL if there is no such run.
unfoldable pub bump_attempt : Uuid → Sql (Option ℕ)
bump_attempt id db = (
  ok (map_option (λ r. r.attempt + 1) (find_run id db.runs)),
  record db { runs = update_run id (bumped db) db.runs },
)

abbrev pub with_usage : Usage → Db → RunRow → RunRow
with_usage u db r = record r { usage = usage_to_dict u; updated_at = db.now }

unfoldable pub save_usage : Uuid → Usage → Sql Unit
save_usage id u = modify (λ db. record db { runs = update_run id (with_usage u db) db.runs })

abbrev pub with_cancel : Db → RunRow → RunRow
with_cancel db r = record r { cancel_requested = true; updated_at = db.now }

abbrev cancel_found : Uuid → Option RunRow → Sql Bool
cancel_found id none = pure false
cancel_found id (some r) = if terminal r.status then pure false else do
  modify (λ db. record db { runs = update_run id (with_cancel db) db.runs })
  append_event id cancel_requested none end
  pure true

-- The row is locked (FOR UPDATE), so test and write are one step.
unfoldable pub request_cancel : Uuid → Sql Bool
request_cancel id = transaction (do row ← gets (λ db. find_run id db.runs); cancel_found id row)

abbrev pub cancel_flag : Option RunRow → Bool
cancel_flag none = false
cancel_flag (some r) = r.cancel_requested

unfoldable pub is_cancel_requested : Uuid → Sql Bool
is_cancel_requested id = gets (λ db. cancel_flag (find_run id db.runs))

abbrev count_in : String → List (String × ℕ) → List (String × ℕ)
count_in s [] = (s, 1) ∷ []
count_in s ((t, n) ∷ counts) = if t == s then (t, n + 1) ∷ counts else (t, n) ∷ count_in s counts

abbrev counts_of : List RunRow → List (String × ℕ)
counts_of [] = []
counts_of (r ∷ rs) = count_in (status_value r.status) (counts_of rs)

-- GROUP BY status
unfoldable pub status_counts : Sql (List (String × ℕ))
status_counts = gets (λ db. counts_of db.runs)
