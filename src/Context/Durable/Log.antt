-- ===== src/Context/Durable/Log.antt =====
-- What the calls of an attempt do to the results that the log of its run records.
use anchor_runtime.Base.{
  ◌+◌, String, true, false, Option, none, some, List, [], ◌∷◌, ◌++◌, ◌≡◌, refl, sym, ap, subst, ◌∙◌,
  arith, ◌==◌, eq_refl, Bool-cases, inl, inr,
}
use anchor_runtime.Value.{Value, Dict, is_json_dict}
use anchor_runtime.Model.{Uuid, Usage, Event}
use anchor_runtime.EventType.{step_completed}
use anchor_runtime.Exec.{ok}
use anchor_runtime.Postgres.Tables.{RunRow, Db, find_run}
use anchor_runtime.Postgres.Tables.Find.{find_run-update}
use anchor_runtime.Postgres.Events.{append_event, appended, events_of, next_seq}
use anchor_runtime.Postgres.Events.Append.{log-append}
use anchor_runtime.Postgres.Events.Gapless.{
  IsGapless, append-succeeds, append-refused, appended-IsGapless,
}
use anchor_runtime.Postgres.Runs.{save_usage, with_usage}
use anchor_runtime.Postgres.Runs.Numbering.{update_run-IsGapless}
use anchor_runtime.Context.Replay.State.{mark, mark_if_key, newest, recorded}

abbrev pub log_of : Uuid → Db → List Event
log_of id db = events_of id db.events

-- The run is there, and the logs are gapless.
pub record HasRun (id : Uuid) (db : Db) : Type 0 where
  pub gapless : IsGapless db
  pub row : RunRow
  pub found : find_run id db.runs ≡ some row

-- No result that is recorded for the run has been lost or replaced.
pub record Later (id : Uuid) (a b : Db) : Type 0 where
  pub has_run : HasRun id b
  pub results :
      (k : String) (v : Value)
      → recorded k (log_of id a) none ≡ some v
      → recorded k (log_of id b) none ≡ some v

recorded-append :
    (k : String) (es : List Event) (e : Event) (old : Option Value)
    → recorded k (es ++ e ∷ []) old ≡ newest (mark k e) (recorded k es old)
unfolding recorded
recorded-append k [] e old = refl
recorded-append k (x ∷ es) e old = recorded-append k es e (newest (mark k x) old)

-- An event of another type records no result.
other-silent :
    (k : String) (key : Option String) (e : Event) (old : Option Value)
    → (e.type == step_completed) ≡ false
    → newest (mark_if_key k key e) old ≡ old
other-silent k none e old other = refl
other-silent k (some j) e old other = ground arith

module _ (id : Uuid) (type : String) (key : Option String) (payload : Dict) (db : Db)
    (h : HasRun id db) where
  abbrev pub new_event : Event
  new_event = record {
    seq = h.row.event_seq + 1;
    type = type;
    step_key = key;
    payload = payload;
    created_at = db.now;
  }

  abbrev pub done : Db
  done = appended id type key payload h.row db

  pub append-done :
      is_json_dict payload ≡ true
      → append_event id type key payload db ≡ (ok (some (h.row.event_seq + 1)), done)
  append-done json = append-succeeds id type key payload db h.row json h.gapless h.found

  pub done-HasRun : HasRun id done
  done-HasRun = record {
    gapless = appended-IsGapless id type key payload db h.row h.gapless h.found;
    row = next_seq db h.row;
    found = find_run-update id id (next_seq db) db.runs (λ r. refl) ∙ rw (eq_refl id, h.found) refl;
  }

  pub done-recorded :
      (k : String)
      → recorded k (log_of id done) none
        ≡ newest (mark k new_event) (recorded k (log_of id db) none)
  done-recorded k =
      ap (λ es. recorded k es none) (log-append id db.events _ (eq_refl id))
      ∙ recorded-append k (log_of id db) new_event none

  pub done-Later : (type == step_completed) ≡ false → Later id db done
  done-Later other = record {
    has_run = done-HasRun;
    results = λ k v r. done-recorded k ∙ other-silent k key new_event _ other ∙ r;
  }

pub Later-refl : (id : Uuid) (db : Db) → HasRun id db → Later id db db
Later-refl id db h = record { has_run = h; results = λ k v r. r }

pub Later-trans : (id : Uuid) (a b c : Db) → Later id a b → Later id b c → Later id a c
Later-trans id a b c h k = record {
  has_run = k.has_run;
  results = λ j v r. k.results j v (h.results j v r);
}

pub append-Later :
    (id : Uuid) (type : String) (key : Option String) (payload : Dict) (db : Db)
    → (type == step_completed) ≡ false
    → HasRun id db
    → Later id db (append_event id type key payload db).1
append-Later id type key payload db other h = elim (Bool-cases (is_json_dict payload)) [
  | inl json ↦
      subst (λ p. Later id db p.1) (sym (append-done id type key payload db h json))
        (done-Later id type key payload db h other)
  | inr bad ↦
      subst (λ p. Later id db p.1) (sym (append-refused id type key payload db bad))
        (Later-refl id db h)
]

pub save_usage-Later :
    (id : Uuid) (u : Usage) (db : Db) → HasRun id db → Later id db (save_usage id u db).1
unfolding save_usage
save_usage-Later id u db h = record {
  has_run = record {
    gapless = update_run-IsGapless id (with_usage u db) db (λ r. refl) (λ r. refl) h.gapless;
    row = with_usage u db h.row;
    found =
        find_run-update id id (with_usage u db) db.runs (λ r. refl) ∙ rw (eq_refl id, h.found) refl;
  };
  results = λ k v r. r;
}
