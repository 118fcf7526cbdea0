-- ===== src/Postgres/Events/Append.antt =====
-- What one append does to the log of its run, and what it answers.
use anchor_runtime.Base.{
  ℕ, ◌+◌, String, true, false, Option, some, List, [], ◌∷◌, ◌++◌, ◌≡◌, ◌⊎◌, refl, ap, ◌∙◌, arith,
  ◌==◌, eq_refl, if◌then◌else◌, Bool-cases, inl, inr,
}
use anchor_runtime.Value.{Dict, is_json_dict}
use anchor_runtime.Model.{Uuid, Event}
use anchor_runtime.Exec.{Reply, ok, raised}
use anchor_runtime.Postgres.Tables.{RunRow, EventRow, Db, find_run, not_serialisable}
use anchor_runtime.Postgres.Tables.Find.{find_run-update}
use anchor_runtime.Postgres.Events.{append_event, next_seq, events_of}
use anchor_runtime.Postgres.Events.Gapless.{
  IsGapless, seq_of, counter, append-succeeds, append-refused,
}

pub log-append :
    (id : Uuid) (es : List EventRow) (e : EventRow)
    → (e.run_id == id) ≡ true
    → events_of id (es ++ e ∷ []) ≡ events_of id es ++ e.event ∷ []
log-append id [] e same = ground arith
log-append id (x ∷ es) e same = ground (arith, log-append id es e)

pub logs-append :
    (j : Uuid) (es : List EventRow) (e : EventRow)
    → events_of j (es ++ e ∷ []) ≡ events_of j es ++ (if e.run_id == j then e.event ∷ [] else [])
logs-append j [] e = ground arith
logs-append j (x ∷ es) e = ground (arith, logs-append j es e)

-- The answer is the number `n`, and the logs are as before, but for one event at the end of
-- the log of the run.
pub record Logged (id : Uuid) (type : String) (key : Option String) (payload : Dict) (n : ℕ)
    (before : Db) (p : Reply (Option ℕ) × Db) : Type 0 where
  pub answered : p.0 ≡ ok (some n)
  pub event : Event
  pub logged :
      (j : Uuid)
      → events_of j p.1.events ≡ events_of j before.events ++ (if id == j then event ∷ [] else [])
  pub seq : event.seq ≡ n
  pub type_kept : event.type ≡ type
  pub key_kept : event.step_key ≡ key
  pub payload_kept : event.payload ≡ payload
  pub counted : seq_of id p.1.runs ≡ n

-- An append to a run that is there, while the logs are gapless. A JSON payload is logged: the
-- answer is the number after the counter, the event with this number, type, step key and payload
-- stands at the end of the log of the run, the counter is at its number, and no other log has
-- changed. Any other payload is refused with the error of the encoder, and nothing is written.
pub append_outcome :
    (id : Uuid) (type : String) (key : Option String) (payload : Dict) (db : Db) (r : RunRow)
    → IsGapless db
    → find_run id db.runs ≡ some r
    → ((is_json_dict payload ≡ true)
        × Logged id type key payload (r.event_seq + 1) db (append_event id type key payload db))
      ⊎ ((is_json_dict payload ≡ false)
          × (append_event id type key payload db ≡ (raised not_serialisable, db)))
append_outcome id type key payload db r g found = elim (Bool-cases (is_json_dict payload)) [
  | inr bad ↦ inr (bad, append-refused id type key payload db bad)
  | inl json ↦ inl (
    json,
    rw (append-succeeds id type key payload db r json g found) (record {
      answered = refl;
      event = _;
      logged = λ j. logs-append j db.events _;
      seq = refl;
      type_kept = refl;
      key_kept = refl;
      payload_kept = refl;
      counted =
          ap counter (find_run-update id id (next_seq db) db.runs (λ x. refl))
          ∙ rw (eq_refl id, found) refl;
    }),
  )
]
