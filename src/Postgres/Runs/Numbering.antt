-- ===== src/Postgres/Runs/Numbering.antt =====
-- Writes to the other columns of `runs` leave the numbering of the log alone.
use anchor_runtime.Base.{
  Bool, true, false, Option, none, some, ◌≡◌, sym, ap, ◌∙◌, arith, ◌==◌, if◌then◌else◌,
}
use anchor_runtime.Model.{Uuid}
use anchor_runtime.Postgres.Tables.{RunRow, Db, find_run, update_run}
use anchor_runtime.Postgres.Tables.Find.{apply_some, find_run-update}
use anchor_runtime.Postgres.Events.Gapless.{IsGapless, counter, count_up}

counter_kept :
    (b : Bool) (f : RunRow → RunRow) (o : Option RunRow)
    → ((r : RunRow) → (f r).event_seq ≡ r.event_seq)
    → counter (if b then apply_some f o else o) ≡ counter o
counter_kept true f none keeps = ground arith
counter_kept true f (some r) keeps = keeps r
counter_kept false f o keeps = ground arith

pub update_run-IsGapless :
    (id : Uuid) (f : RunRow → RunRow) (db : Db)
    → ((r : RunRow) → (f r).run_id ≡ r.run_id)
    → ((r : RunRow) → (f r).event_seq ≡ r.event_seq)
    → IsGapless db
    → IsGapless (record db { runs = update_run id f db.runs })
update_run-IsGapless id f db keys keeps g j =
    g j
    ∙ ap (count_up 1) (
        sym (
          ap counter (find_run-update id j f db.runs keys)
          ∙ counter_kept (id == j) f (find_run j db.runs) keeps))
