-- ===== src/Postgres/History/WellFormed.antt =====
-- What holds of the tables after every call of the store.
use anchor_runtime.Base.{
  ℕ, String, Bool, true, false, not, Option, none, some, List, ◌≡◌, refl, sym, ap, subst, ◌∙◌,
  arith, keep, ◌==◌, if◌then◌else◌, Option-cases, Bool-cases, inl, inr,
}
use anchor_runtime.Value.{Dict, end, is_json_dict}
use anchor_runtime.Model.{Uuid, terminal}
use anchor_runtime.EventType.{cancel_requested}
use anchor_runtime.Postgres.Tables.{RunRow, QueueRow, Db, find_run, find_queued, update_run, update}
use anchor_runtime.Postgres.Tables.Find.{find_run-update, apply_some}
use anchor_runtime.Postgres.Events.{append_event, next_seq}
use anchor_runtime.Postgres.Events.Gapless.{
  IsGapless, append_cases, append-succeeds, append-IsGapless,
}
use anchor_runtime.Postgres.Queue.{dequeue, release, heartbeat, claim, first_visible, is_claimable}
use anchor_runtime.Postgres.Queue.Rows.{IsKeyed, IsKeyed-update, find_queued-update}
use anchor_runtime.Postgres.Queue.Heartbeat.{
  QueueCall, perform, claims, beats, releases, dequeues, waits,
}
use anchor_runtime.Postgres.Effects.Once.{IsOnce}
use anchor_runtime.Postgres.Runs.{request_cancel, with_cancel}
use anchor_runtime.Postgres.Runs.Numbering.{update_run-IsGapless}
use anchor_runtime.Exec.{ok}
use anchor_runtime.Postgres.Runs.Cancel.{flagged, find_flagged, cancelled_db, request_cancel_exact}
use anchor_runtime.Postgres.History.{no_rows}
use anchor_runtime.Postgres.Queue.Changed.{find_queued-keep, IsKeyed-keep}

-- Logs without gaps, at most one queue row per run and only for runs that there are, and at most one
-- effect per token.
pub record IsWellFormed (db : Db) : Type 0 where
  pub gapless : IsGapless db
  pub keyed : IsKeyed db.queue
  pub known : (id : Uuid) → find_run id db.runs ≡ none → find_queued id db.queue ≡ none
  pub once : IsOnce db

absent_before :
    (b : Bool) (o : Option RunRow) (f : RunRow → RunRow)
    → (if b then apply_some f o else o) ≡ none
    → o ≡ none
absent_before b none f h = refl
absent_before true (some r) f h = cc
absent_before false (some r) f h = cc

find_run-absent :
    (id j : Uuid) (f : RunRow → RunRow) (rs : List RunRow)
    → ((r : RunRow) → (f r).run_id ≡ r.run_id)
    → find_run j (update_run id f rs) ≡ none
    → find_run j rs ≡ none
find_run-absent id j f rs keeps h =
    absent_before (id == j) (find_run j rs) f (sym (find_run-update id j f rs keeps) ∙ h)

-- An UPDATE of a run that leaves its key and its counter alone.
pub update_run-IsWellFormed :
    (id : Uuid) (f : RunRow → RunRow) (db : Db)
    → ((r : RunRow) → (f r).run_id ≡ r.run_id)
    → ((r : RunRow) → (f r).event_seq ≡ r.event_seq)
    → IsWellFormed db
    → IsWellFormed (record db { runs = update_run id f db.runs })
update_run-IsWellFormed id f db keys seqs w = record {
  gapless = update_run-IsGapless id f db keys seqs w.gapless;
  keyed = w.keyed;
  known = λ j h. w.known j (find_run-absent id j f db.runs keys h);
  once = w.once;
}

pub append-IsWellFormed :
    (id : Uuid) (type : String) (key : Option String) (payload : Dict) (db : Db)
    → IsWellFormed db
    → IsWellFormed (append_event id type key payload db).1
append-IsWellFormed id type key payload db w =
    elim (append_cases id type key payload db w.gapless) [
      | inl same ↦ subst (λ d. IsWellFormed d) (sym same) w
      | inr (r, found, done) ↦ record {
        gapless = append-IsGapless id type key payload db w.gapless;
        keyed = rw done w.keyed;
        known =
            rw done (λ j h. w.known j (find_run-absent id j (next_seq db) db.runs (λ r. refl) h));
        once = rw done w.once;
      }
    ]

pub cancel-missing :
    (id : Uuid) (db : Db) → find_run id db.runs ≡ none → request_cancel id db ≡ (ok false, db)
unfolding request_cancel
cancel-missing id db h = ground arith

cancelled-IsWellFormed :
    (id : Uuid) (db : Db) (r : RunRow)
    → find_run id db.runs ≡ some r
    → IsWellFormed db
    → IsWellFormed (cancelled_db id r db)
unfolding is_json_dict
cancelled-IsWellFormed id db r found w =
    let flag = update_run-IsWellFormed id (with_cancel db) db (λ x. refl) (λ x. refl) w in
    subst (λ d. IsWellFormed d)
      (ap (λ p. p.1)
        (append-succeeds id cancel_requested none end (flagged id db) (with_cancel db r) refl
          flag.gapless (find_flagged id db r found)))
      (append-IsWellFormed id cancel_requested none end (flagged id db) flag)

pub cancel-IsWellFormed :
    (id : Uuid) (db : Db) → IsWellFormed db → IsWellFormed (request_cancel id db).1
cancel-IsWellFormed id db w = elim (Option-cases (find_run id db.runs)) [
  | inl missing ↦ rw (cancel-missing id db missing) w
  | inr (r, found) ↦
      let exact = request_cancel_exact id db r w.gapless found in
      elim (Bool-cases (terminal r.status)) [
        | inl over ↦ rw (exact, over) w
        | inr going ↦ rw (exact, going) (cancelled-IsWellFormed id db r found w)
      ]
]

-- A write to the queue that keeps it keyed and adds no run.
queue-IsWellFormed :
    (db : Db) (qs : List QueueRow)
    → IsWellFormed db
    → IsKeyed qs
    → ((j : Uuid) → find_queued j db.queue ≡ none → find_queued j qs ≡ none)
    → IsWellFormed (record db { queue = qs })
queue-IsWellFormed db qs w keyed less = record {
  gapless = w.gapless;
  keyed = keyed;
  known = λ j h. less j (w.known j h);
  once = w.once;
}

update-IsWellFormed :
    (db : Db) (p : QueueRow → Bool) (f : QueueRow → QueueRow)
    → ((q : QueueRow) → (f q).run_id ≡ q.run_id)
    → IsWellFormed db
    → IsWellFormed (record db { queue = update p f db.queue })
update-IsWellFormed db p f keeps w =
    queue-IsWellFormed db (update p f db.queue) w (IsKeyed-update p f db.queue keeps w.keyed)
      (λ j h. rw (find_queued-update j p f db.queue keeps, h) refl)

pub perform-IsWellFormed : (c : QueueCall) (db : Db) → IsWellFormed db → IsWellFormed (perform c db)
unfolding heartbeat release dequeue claim
perform-IsWellFormed (claims worker lease) db w =
    elim (Option-cases (first_visible (keep (is_claimable db.now) db.queue))) [
      | inl empty ↦ rw (perform, empty, claim) w
      | inr (q, e) ↦ rw (perform, e, claim) (update-IsWellFormed db _ _ (λ r. refl) w)
    ]
perform-IsWellFormed (beats id worker lease) db w = update-IsWellFormed db _ _ (λ q. refl) w
perform-IsWellFormed (releases id worker delay) db w = update-IsWellFormed db _ _ (λ q. refl) w
perform-IsWellFormed (dequeues id) db w =
    let p = λ (q : QueueRow). not (q.run_id == id) in
    queue-IsWellFormed db (keep p db.queue) w (IsKeyed-keep p db.queue w.keyed)
      (λ j h. find_queued-keep j p db.queue h)
perform-IsWellFormed (waits d) db w = record {
  gapless = w.gapless;
  keyed = w.keyed;
  known = w.known;
  once = w.once;
}

-- The empty tables are well-formed.
pub no_rows-IsWellFormed : (now : ℕ) → IsWellFormed (no_rows now)
unfolding find_run find_queued
no_rows-IsWellFormed now = record {
  gapless = λ id. refl;
  keyed = tt;
  known = λ id h. refl;
  once = λ token. omega arith;
}
