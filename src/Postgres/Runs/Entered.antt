-- ===== src/Postgres/Runs/Entered.antt =====
-- What a submission under a new key leaves in the tables.
use anchor_runtime.Base.{
  String, Bool, true, false, none, some, [], ◌∷◌, ◌++◌, ◌≡◌, ◌⊎◌, refl, ap, sym, ◌∙◌, arith, ◌==◌,
  eq_iff, if◌then◌else◌, Bool-cases, inl, inr,
}
use anchor_runtime.Value.{Dict, get?, str, obj, is_json_dict}
use anchor_runtime.Model.{Uuid, Event, RunRecord, Budget, budget_to_dict, pending}
use anchor_runtime.Exec.{Reply, ok, raised}
use anchor_runtime.Postgres.Tables.{
  RunRow, QueueRow, Db, find_run, find_key, find_queued, to_run, not_serialisable,
}
use anchor_runtime.Postgres.Tables.Find.{find_run-update, find_run-append_ne}
use anchor_runtime.Postgres.Events.{events_of, next_seq}
use anchor_runtime.Postgres.Events.Append.{logs-append}
use anchor_runtime.Postgres.Events.Gapless.{IsGapless}
use anchor_runtime.Postgres.Runs.{submit_run}
use anchor_runtime.Postgres.Runs.Submit.{
  row, submitted, find_submitted, find_key_submitted, submit_new, submit_not_json,
}
use anchor_runtime.Postgres.Queue.{is_claimable}

module _ (id : Uuid) (workflow : String) (payload : Dict) (key : String) (budget : Budget)
    (before : Db) where
  -- A run that has been asked for, and not begun.
  pub record IsPending (r : RunRow) : Type 0 where
    pub run_id : r.run_id ≡ id
    pub status : r.status ≡ pending
    pub workflow_kept : r.workflow ≡ workflow
    pub input_kept : r.input ≡ payload
    pub budget_kept : r.budget ≡ budget_to_dict budget
    pub key_kept : r.idempotency_key ≡ key
    pub result : r.result ≡ none
    pub error : r.error ≡ none
    pub flag : r.cancel_requested ≡ false
    pub attempts : r.attempt ≡ 0

  -- A queue entry that any worker may claim from now on.
  pub record IsOffered (q : QueueRow) : Type 0 where
    pub run_id : q.run_id ≡ id
    pub claimable : is_claimable before.now q ≡ true
    pub visible : q.visible_at ≡ before.now
    pub attempts : q.attempts ≡ 0

  pub record IsStart (e : Event) : Type 0 where
    pub seq : e.seq ≡ 1
    pub type : e.type ≡ "RunStarted"
    pub workflow_noted : get? "workflow" e.payload ≡ some (str workflow)
    pub input_noted : get? "input" e.payload ≡ some (obj payload)
    pub budget_noted : get? "budget" e.payload ≡ some (obj (budget_to_dict budget))

  -- The answer is the new run, and the tables hold its row, its queue entry and its first event,
  -- beside the rows and the events of the other runs.
  pub record Entered (p : Reply (RunRecord × Bool) × Db) : Type 0 where
    pub run : RunRow
    pub pending_run : IsPending run
    pub answered : p.0 ≡ ok (to_run run, true)
    pub rows :
        (j : Uuid) → find_run j p.1.runs ≡ (if id == j then some run else find_run j before.runs)
    pub by_key : find_key key p.1.runs ≡ some run
    pub entry : QueueRow
    pub offered : IsOffered entry
    pub queued : p.1.queue ≡ before.queue ++ entry ∷ []
    pub event : Event
    pub start : IsStart event
    pub logs :
        (j : Uuid)
        → events_of j p.1.events ≡ events_of j before.events ++ (if id == j then event ∷ [] else [])

module _ (id : Uuid) (workflow : String) (payload : Dict) (key : String) (budget : Budget)
    (db : Db) where
  rows_after :
      (j : Uuid)
      → find_run id db.runs ≡ none
      → find_run j (submitted id workflow payload key budget db).runs ≡ (
          if id == j
          then some (next_seq db (row id workflow payload key budget db))
          else find_run j db.runs)
  rows_after j fresh = elim (Bool-cases (id == j)) [
    | inl same ↦
        ap (λ k. find_run k (submitted id workflow payload key budget db).runs)
          (sym ((eq_iff id j).0 same))
        ∙ find_submitted id workflow payload key budget db fresh
        ∙ rw same refl
    | inr other ↦
        find_run-update id j (next_seq db) _ (λ x. refl)
        ∙ rw other (find_run-append_ne j db.runs (row id workflow payload key budget db) other)
  ]

  -- A submission under a key and an identifier that the tables do not have, while the logs are
  -- gapless. With a JSON input, the answer is the new run and `created`. Its row is found by the
  -- identifier and by the key, is pending, holds the workflow, the input, the budget and the key,
  -- no result and no error, and its flag is not set; the queue has one entry more, which is for the
  -- run and can be claimed at once; the log of the run has one event more, `RunStarted` under
  -- number 1, with the workflow, the input and the budget; rows and logs of the other runs are as
  -- before. Any other input is refused with the error of the encoder, and nothing is written.
  pub submission_outcome :
      IsGapless db
      → find_key key db.runs ≡ none
      → find_run id db.runs ≡ none
      → find_queued id db.queue ≡ none
      → ((is_json_dict payload ≡ true)
          × Entered id workflow payload key budget db
              (submit_run id workflow payload key budget db))
        ⊎ ((is_json_dict payload ≡ false)
            × (submit_run id workflow payload key budget db ≡ (raised not_serialisable, db)))
  submission_outcome g k f q = elim (Bool-cases (is_json_dict payload)) [
    | inr bad ↦ inr (bad, submit_not_json id workflow payload key budget db bad k f q)
    | inl json ↦ inl (
      json,
      rw (submit_new id workflow payload key budget db json g k f q) (record {
        run = next_seq db (row id workflow payload key budget db);
        pending_run = record {
          run_id = refl;
          status = refl;
          workflow_kept = refl;
          input_kept = refl;
          budget_kept = refl;
          key_kept = refl;
          result = refl;
          error = refl;
          flag = refl;
          attempts = refl;
        };
        answered = refl;
        rows = λ j. rows_after j f;
        by_key = find_key_submitted id workflow payload key budget db k;
        entry = _;
        offered = record {
          run_id = refl;
          claimable = ground arith;
          visible = refl;
          attempts = refl;
        };
        queued = refl;
        event = _;
        start = record {
          seq = refl;
          type = refl;
          workflow_noted = refl;
          input_noted = refl;
          budget_noted = refl;
        };
        logs = λ j. logs-append j db.events _;
      }),
    )
  ]
