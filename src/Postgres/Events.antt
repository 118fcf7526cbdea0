-- ===== src/Postgres/Events.antt =====
-- The append-only log: `_append_event_conn`, `append_event` and `load_events`.
pub mod Gapless
pub mod Append
use anchor_runtime.Base.{
  ℕ, ◌+◌, String, Bool, ◌&&◌, Option, none, some, List, [], ◌∷◌, ◌++◌, map, leb, eqb, ◌==◌, any,
  keep, if◌then◌else◌,
}
use anchor_runtime.Value.{Dict, is_json_dict}
use anchor_runtime.Model.{Uuid, Event}
use anchor_runtime.Exec.{ok, raised, gets}
use anchor_runtime.Postgres.Tables.{
  RunRow, EventRow, Db, Sql, find_run, update_run, unique_violation, not_serialisable,
}

-- The primary key (run_id, seq).
abbrev pub has_event : Uuid → ℕ → List EventRow → Bool
has_event id n = any (λ e. e.run_id == id && eqb e.event.seq n)

abbrev pub next_seq : Db → RunRow → RunRow
next_seq db r = record r { event_seq = r.event_seq + 1; updated_at = db.now }

-- The tables after an append to the run of the row `r`.
abbrev pub appended : Uuid → String → Option String → Dict → RunRow → Db → Db
appended id type key payload r db = record db {
  runs = update_run id (next_seq db) db.runs;
  events =
      db.events
      ++ record {
        run_id = id;
        event = record {
          seq = r.event_seq + 1;
          type = type;
          step_key = key;
          payload = payload;
          created_at = db.now;
        };
      }
        ∷ [];
}

-- One statement: bump `event_seq`, and insert the event under the new number. The result is NULL
-- if there is no such run.
unfoldable pub insert_event : Uuid → String → Option String → Dict → Sql (Option ℕ)
insert_event id type key payload db = elim (find_run id db.runs) [
  | none ↦ (ok none, db)
  | some r ↦
      if has_event id (r.event_seq + 1) db.events
      then (raised unique_violation, db)
      else (ok (some (r.event_seq + 1)), appended id type key payload r db)
]

-- The client encodes the payload before it sends the statement.
unfoldable pub append_event : Uuid → String → Option String → Dict → Sql (Option ℕ)
unfolding insert_event is_json_dict
append_event id type key payload db =
    if is_json_dict payload
    then insert_event id type key payload db
    else (raised not_serialisable, db)

abbrev pub events_of : Uuid → List EventRow → List Event
events_of id rows = map (λ e. e.event) (keep (λ e. e.run_id == id) rows)

-- ORDER BY seq
abbrev pub insert_by_seq : Event → List Event → List Event
insert_by_seq e [] = e ∷ []
insert_by_seq e (f ∷ fs) = if leb e.seq f.seq then e ∷ f ∷ fs else f ∷ insert_by_seq e fs

abbrev pub order_by_seq : List Event → List Event
order_by_seq [] = []
order_by_seq (e ∷ es) = insert_by_seq e (order_by_seq es)

unfoldable pub load_events : Uuid → Sql (List Event)
load_events id = gets (λ db. order_by_seq (events_of id db.events))
