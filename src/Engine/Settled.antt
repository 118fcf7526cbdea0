-- ===== src/Engine/Settled.antt =====
-- Calls of the engine that nobody disturbs: they return, and the run stays there with a known status.
use anchor_runtime.Base.{◌+◌, String, true, ◌&&◌, Option, none, some, [], ◌≡◌, refl, ◌∙◌, eq_refl}
use anchor_runtime.Value.{Value, Dict, is_json, is_json_dict}
use anchor_runtime.Model.{Uuid, RunStatus, Usage}
use anchor_runtime.Exec.{Reply, ok, ◌>>=◌}
use anchor_runtime.Exec.Laws.{bind-ok}
use anchor_runtime.Postgres.Tables.{RunRow, Db, find_run, update_run}
use anchor_runtime.Postgres.Tables.Find.{apply_some, find_run-update}
use anchor_runtime.Postgres.Events.{appended, next_seq}
use anchor_runtime.Postgres.Events.Gapless.{IsGapless, append-succeeds, appended-IsGapless}
use anchor_runtime.Postgres.Runs.{set_status, is_json_error, save_usage, with_status, with_usage}
use anchor_runtime.Postgres.Runs.Numbering.{update_run-IsGapless}
use anchor_runtime.Machine.{Machine, M, call}
use anchor_runtime.Context.Guards.{Runtime, append}
use anchor_runtime.Engine.{outcome}

abbrev pub status_of : Option RunRow → Option RunStatus
status_of r = apply_some (λ r. r.status) r

-- Nobody interferes any more, the log is gapless, and the run is there, with this status.
pub record IsSettled (id : Uuid) (status : RunStatus) (m : Machine) : Type 0 where
  pub quiet : m.schedule ≡ []
  pub gapless : IsGapless m.db
  pub shown : status_of (find_run id m.db.runs) ≡ some status

-- The action returned a value with the property `Q`, and left the run with this status.
pub record Returns {A : Type 0} (Q : A → Type 0) (id : Uuid) (status : RunStatus)
    (p : Reply A × Machine) : Type 0 where
  pub value : A
  pub after : Machine
  pub returned : p ≡ (ok value, after)
  pub good : Q value
  pub settled : IsSettled id status after

module _ {A B : Type 0} {P : A → Type 0} {Q : B → Type 0} {id : Uuid} {s t : RunStatus} where
  pub and_then :
      (m : M A) (f : A → M B) (start : Machine)
      → Returns P id s (m start)
      → ((a : A) (n : Machine) → P a → IsSettled id s n → Returns Q id t (f a n))
      → Returns Q id t ((m >>= f) start)
  and_then m f start r k =
      let step = k r.value r.after r.good r.settled in
      record {
        value = step.value;
        after = step.after;
        returned = bind-ok m f r.returned ∙ step.returned;
        good = step.good;
        settled = step.settled;
      }

pub row_of :
    {s : RunStatus} (o : Option RunRow) → status_of o ≡ some s → (r : RunRow) × (o ≡ some r)
row_of none h = cc
row_of (some r) h = (r, refl)

pub status_updated :
    {s t : RunStatus} (f : RunRow → RunRow) (o : Option RunRow)
    → ((r : RunRow) → r.status ≡ s → (f r).status ≡ t)
    → status_of o ≡ some s
    → status_of (apply_some f o) ≡ some t
status_updated f none status h = cc
status_updated f (some r) status h = rw (status r (cc)) refl

module _ (rt : Runtime) (s : RunStatus) where
  pub update-IsSettled :
      (f : Db → RunRow → RunRow) (t : RunStatus) (m : Machine)
      → ((r : RunRow) → (f m.db r).run_id ≡ r.run_id)
      → ((r : RunRow) → (f m.db r).event_seq ≡ r.event_seq)
      → ((r : RunRow) → r.status ≡ s → (f m.db r).status ≡ t)
      → IsSettled rt.run_id s m
      → IsSettled rt.run_id t
          (record m { db = record m.db { runs = update_run rt.run_id (f m.db) m.db.runs } })
  update-IsSettled f t m keys seqs status h = record {
    quiet = h.quiet;
    gapless = update_run-IsGapless rt.run_id (f m.db) m.db keys seqs h.gapless;
    shown =
        rw (find_run-update rt.run_id rt.run_id (f m.db) m.db.runs keys, eq_refl rt.run_id)
          (status_updated (f m.db) (find_run rt.run_id m.db.runs) status h.shown);
  }

  -- One event more, and nothing else of the machine has changed.
  abbrev pub noted : String → Option String → Dict → Machine → RunRow → Machine
  noted type key payload m r = record m { db = appended rt.run_id type key payload r m.db }

  pub noted-IsSettled :
      (type : String) (key : Option String) (payload : Dict) (m : Machine) (r : RunRow)
      → find_run rt.run_id m.db.runs ≡ some r
      → IsSettled rt.run_id s m
      → IsSettled rt.run_id s (noted type key payload m r)
  noted-IsSettled type key payload m r found h = record {
    quiet = h.quiet;
    gapless = appended-IsGapless rt.run_id type key payload m.db r h.gapless found;
    shown =
        rw
          (
            find_run-update rt.run_id rt.run_id (next_seq m.db) m.db.runs (λ r. refl),
            eq_refl rt.run_id,
          )
          (status_updated (next_seq m.db) (find_run rt.run_id m.db.runs) (λ r h. h) h.shown);
  }

  pub append_known :
      (type : String) (key : Option String) (payload : Dict) (m : Machine) (r : RunRow)
      → is_json_dict payload ≡ true
      → find_run rt.run_id m.db.runs ≡ some r
      → IsSettled rt.run_id s m
      → append rt type key payload m ≡ (ok (some (r.event_seq + 1)), noted type key payload m r)
  unfolding append call
  append_known type key payload m r json found h =
      rw (h.quiet, append-succeeds rt.run_id type key payload m.db r json h.gapless found) refl

  pub append_settled :
      (type : String) (key : Option String) (payload : Dict) (m : Machine)
      → is_json_dict payload ≡ true
      → IsSettled rt.run_id s m
      → Returns (λ n. Unit) rt.run_id s (append rt type key payload m)
  append_settled type key payload m json h =
      let (r, found) = row_of (find_run rt.run_id m.db.runs) h.shown in
      record {
        value = _;
        after = noted type key payload m r;
        returned = append_known type key payload m r json found h;
        good = tt;
        settled = noted-IsSettled type key payload m r found h;
      }

  pub set_status_settled :
      (t : RunStatus) (result : Value) (error : Option Dict) (m : Machine)
      → (is_json result && is_json_error error) ≡ true
      → IsSettled rt.run_id s m
      → Returns (λ n. Unit) rt.run_id t (call (set_status rt.run_id t result error) m)
  unfolding call set_status
  set_status_settled t result error m json h = record {
    value = tt;
    after = record m {
      db = record m.db { runs = update_run rt.run_id (with_status t result error m.db) m.db.runs };
    };
    returned = rw (h.quiet, json) refl;
    good = tt;
    settled =
        update-IsSettled (with_status t result error) t m (λ r. refl) (λ r. refl) (λ r h. refl) h;
  }

  pub save_usage_settled :
      (u : Usage) (m : Machine)
      → IsSettled rt.run_id s m
      → Returns (λ n. Unit) rt.run_id s (call (save_usage rt.run_id u) m)
  unfolding call save_usage
  save_usage_settled u m h = record {
    value = tt;
    after = record m { db = (save_usage rt.run_id u m.db).1 };
    returned = rw (h.quiet) refl;
    good = tt;
    settled = update-IsSettled (with_usage u) s m (λ r. refl) (λ r. refl) (λ r h. h) h;
  }

  pub outcome_settled :
      (t : RunStatus) (result : Value) (error : Option Dict) (m : Machine)
      → IsSettled rt.run_id s m
      → Returns (λ o. o.status ≡ t) rt.run_id s (outcome rt t result error m)
  outcome_settled t result error m h = record {
    value = _;
    after = m;
    returned = refl;
    good = refl;
    settled = h;
  }
