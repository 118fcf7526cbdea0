-- ===== src/Cli/Shown.antt =====
-- What `tail` shows of a run.
use anchor_runtime.Base.{
  String, ◌<>◌, none, some, List, [], ◌∷◌, ◌++◌, map, append-nil, append_assoc, ◌≡◌, refl, ◌∙◌,
}
use anchor_runtime.Model.{Uuid, RunRecord, Event}
use anchor_runtime.Errors.{Host, other}
use anchor_runtime.Exec.{ok, raised}
use anchor_runtime.Postgres.Tables.{RunRow, Db, find_run, to_run}
use anchor_runtime.Postgres.Events.{load_events, events_of, order_by_seq}
use anchor_runtime.Postgres.Runs.{get_run}
use anchor_runtime.Machine.{Context, call}
use anchor_runtime.Cli.{Json, Console, format_run, format_event, print_events, tail}

module _ (host : Host) (json : Json) where
  abbrev printed : List String → Console → Console
  printed lines c = record c { out = c.out ++ lines }

  print_events-exact :
      (es : List Event) (c : Console)
      → print_events host json es c ≡ (ok tt, printed (map (format_event host json) es) c)
  print_events-exact [] c = rw (append-nil c.out) refl
  print_events-exact (e ∷ es) c =
      let line = format_event host json e in
      print_events-exact es (printed (line ∷ []) c)
      ∙ rw (append_assoc c.out (line ∷ []) (map (format_event host json) es)) refl

  -- A console on which nobody interferes with the calls of the store.
  abbrev pub idle : Db → Context → List String → List String → Console
  idle db ctx out err = record {
    machine = record { db = db; schedule = []; ctx = ctx };
    out = out;
    err = err;
  }

  abbrev pub run_lines : RunRecord → List Event → List String
  run_lines r es = format_run host json r ∷ map (format_event host json) es

  -- `tail` of a run that is there, while nobody interferes, prints the run and then each event of its
  -- log on a line of its own, in the order of their numbers; for a run that is not there it prints
  -- that to the other stream alone, and ends with an exit code. It changes nothing else.
  pub tail-exact :
      (shown : String) (id : Uuid) (db : Db) (ctx : Context) (out err : List String)
      → json.parse_uuid shown ≡ ok id
      → ((row : RunRow)
          → find_run id db.runs ≡ some row
          → tail host json shown (idle db ctx out err) ≡ (
            ok tt,
            idle db ctx (out ++ run_lines (to_run row) (order_by_seq (events_of id db.events))) err,
          ))
        × (find_run id db.runs ≡ none
            → tail host json shown (idle db ctx out err) ≡ (
              raised (other "Exit" "1"),
              idle db ctx out (err ++ ("no such run: " <> shown) ∷ []),
            ))
  unfolding tail call get_run load_events
  tail-exact shown id db ctx out err parsed =
      let es = order_by_seq (events_of id db.events) in
      (
        λ row found.
            rw (parsed, found)
              (print_events-exact es
                  (idle db ctx (out ++ format_run host json (to_run row) ∷ []) err)
                ∙ rw
                    (append_assoc out (format_run host json (to_run row) ∷ [])
                      (map (format_event host json) es))
                    refl),
        λ missing. rw (parsed, missing) refl,
      )
