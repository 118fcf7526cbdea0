-- ===== src/Api/Answers.antt =====
-- What a client is told about a cancellation and about a repeated submission.
use anchor_runtime.Base.{
  String, ◌<>◌, ◌+◌, true, false, Option, some, [], ◌∷◌, ◌++◌, ◌≡◌, ◌⊎◌, refl, sym, ap, ◌∙◌, ◌==◌,
  eq_iff, contains, if◌then◌else◌, Bool-cases, inl, inr,
}
use anchor_runtime.Value.{bool, str, end, field}
use anchor_runtime.Model.{
  Uuid, Event, status_value, run_to_api, terminal, budget_to_dict, budget_from_dict,
}
use anchor_runtime.Errors.{Host}
use anchor_runtime.Exec.{ok}
use anchor_runtime.Registry.{Registry, workflow_names}
use anchor_runtime.Postgres.Tables.{RunRow, Db, find_run, find_key, to_run}
use anchor_runtime.Postgres.Tables.Find.{find_run-update}
use anchor_runtime.Postgres.Events.{events_of, next_seq}
use anchor_runtime.Postgres.Events.Append.{logs-append}
use anchor_runtime.Postgres.Events.Gapless.{IsGapless}
use anchor_runtime.Postgres.Runs.{get_run, with_cancel}
use anchor_runtime.Postgres.Runs.Cancel.{flagged, cancelled_db, request_cancel_exact}
use anchor_runtime.Postgres.Runs.Submit.{submit_known}
use anchor_runtime.Machine.{Machine, call}
use anchor_runtime.Api.{answer, refused, SubmitRunIn, key_or, cancel_run, submit_run}

-- The flag of the run is set, its counter and its log have one event more, and all else about the
-- runs is as before.
pub record Flagged (id : Uuid) (r : RunRow) (before after : Db) : Type 0 where
  pub row : RunRow
  pub rows :
      (j : Uuid) → find_run j after.runs ≡ (if id == j then some row else find_run j before.runs)
  pub flagged_row :
      row
      ≡ record r { cancel_requested = true; event_seq = r.event_seq + 1; updated_at = before.now }
  pub event : Event
  pub logs :
      (j : Uuid)
      → events_of j after.events ≡ events_of j before.events ++ (if id == j then event ∷ [] else [])
  pub seq : event.seq ≡ r.event_seq + 1
  pub type : event.type ≡ "CancelRequested"

cancelled-Flagged :
    (id : Uuid) (db : Db) (r : RunRow)
    → find_run id db.runs ≡ some r
    → Flagged id r db (cancelled_db id r db)
cancelled-Flagged id db r found = record {
  row = next_seq db (with_cancel db r);
  rows = λ j.
      find_run-update id j (next_seq db) (flagged id db).runs (λ x. refl)
      ∙ rw (find_run-update id j (with_cancel db) db.runs (λ x. refl))
          (elim (Bool-cases (id == j)) [
            | inl same ↦
                rw (same, sym (ap (λ k. find_run k db.runs) ((eq_iff id j).0 same)) ∙ found) refl
            | inr other ↦ rw other refl
          ]);
  flagged_row = refl;
  event = _;
  logs = λ j. logs-append j db.events _;
  seq = refl;
  type = refl;
}

-- A cancellation of a run that is there, while the logs are gapless and nobody interferes. If the
-- run has ended, it is refused with 409 and the status of the run, and nothing is written. If not,
-- it is accepted with 200 and a body that says so, the flag of the run is set, its
-- log gets the event `CancelRequested` under the next number, which its counter then shows, and but
-- for the time of the update all else in its row and the other runs are as before.
pub cancel_known :
    (host : Host) (id : Uuid) (m : Machine) (r : RunRow)
    → m.schedule ≡ []
    → IsGapless m.db
    → find_run id m.db.runs ≡ some r
    → ((terminal r.status ≡ true)
        × (cancel_run host id m ≡ (
          ok (
              refused 409
                ("run is already " <> status_value r.status <> " and cannot be cancelled")),
          m,
        )))
      ⊎ ((terminal r.status ≡ false)
          × (db : Db) × (cancel_run host id m ≡ (
            ok (answer 200 (field "run_id" (str id) (field "cancel_requested" (bool true) end))),
            record m { db = db },
          ))
          × Flagged id r m.db db)
unfolding cancel_run call get_run to_run
cancel_known host id m r quiet g found = elim (Bool-cases (terminal r.status)) [
  | inl over ↦ inl (over, rw (quiet, found, request_cancel_exact id m.db r g found, over) refl)
  | inr going ↦ inr (
    going,
    cancelled_db id r m.db,
    rw (quiet, found, request_cancel_exact id m.db r g found, going) refl,
    cancelled-Flagged id m.db r found,
  )
]

-- A submission for a registered workflow under a key that is known, with nobody interfering, is
-- answered with 200, `created` false and the run that has the key, whatever else it asks for, and
-- nothing is written.
pub repeated_submission :
    (host : Host) (registry : Registry) (id : Uuid) (new_key : String) (key : Option String)
    (body : SubmitRunIn) (m : Machine) (r : RunRow)
    → contains body.workflow (workflow_names registry) ≡ true
    → m.schedule ≡ []
    → find_key (key_or new_key key) m.db.runs ≡ some r
    → submit_run host registry id new_key key body m
      ≡ (ok (answer 200 (field "created" (bool false) (run_to_api host.iso (to_run r)))), m)
unfolding submit_run call
repeated_submission host registry id new_key key body m r registered quiet known =
    rw
      (
        registered,
        quiet,
        submit_known id body.workflow body.input (key_or new_key key)
            (budget_from_dict (budget_to_dict body.budget)) m.db r known,
      )
      refl
