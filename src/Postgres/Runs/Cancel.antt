-- ===== src/Postgres/Runs/Cancel.antt =====
-- A cancellation is accepted while the run is live, and stands from then on.
use anchor_runtime.Base.{true, false, some, none, ◌≡◌, refl, arith, eq_refl, if◌then◌else◌}
use anchor_runtime.Value.{end, is_json_dict}
use anchor_runtime.Model.{Uuid, terminal}
use anchor_runtime.EventType.{cancel_requested}
use anchor_runtime.Exec.{ok}
use anchor_runtime.Postgres.Tables.{RunRow, Db, find_run, update_run}
use anchor_runtime.Postgres.Tables.Find.{find_run-update}
use anchor_runtime.Postgres.Events.{appended}
use anchor_runtime.Postgres.Events.Gapless.{IsGapless, append-succeeds}
use anchor_runtime.Postgres.Runs.{with_cancel, request_cancel}
use anchor_runtime.Postgres.Runs.Numbering.{update_run-IsGapless}

abbrev pub flagged : Uuid → Db → Db
flagged id db = record db { runs = update_run id (with_cancel db) db.runs }

abbrev pub cancelled_db : Uuid → RunRow → Db → Db
cancelled_db id r db = appended id cancel_requested none end (with_cancel db r) (flagged id db)

pub find_flagged :
    (id : Uuid) (db : Db) (r : RunRow)
    → find_run id db.runs ≡ some r
    → find_run id (flagged id db).runs ≡ some (with_cancel db r)
find_flagged id db r h =
    rw (find_run-update id id (with_cancel db) db.runs (λ x. refl), eq_refl id, h)

-- With gapless logs, the request for a known run is refused, and nothing is written, exactly if
-- the run is terminal; otherwise the flag is set and one event `CancelRequested` is appended.
pub request_cancel_exact :
    (id : Uuid) (db : Db) (r : RunRow)
    → IsGapless db
    → find_run id db.runs ≡ some r
    → request_cancel id db
      ≡ (if terminal r.status then (ok false, db) else (ok true, cancelled_db id r db))
unfolding request_cancel is_json_dict
request_cancel_exact id db r g h = ground (
  arith,
  append-succeeds id cancel_requested none end (flagged id db) (with_cancel db r) refl
      (update_run-IsGapless id (with_cancel db) db (λ x. refl) (λ x. refl) g)
      (find_flagged id db r h),
)
