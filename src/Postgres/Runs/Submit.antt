-- ===== src/Postgres/Runs/Submit.antt =====
-- Submission: one run for each idempotency key, and what a new run consists of.
use anchor_runtime.Base.{
  ℕ, Option, String, true, false, none, some, ◌≡◌, subst, refl, sym, ap, ◌∙◌, arith, ◌==◌, eq_iff,
  eq_refl, Bool-cases, inl, inr,
}
use anchor_runtime.Value.{Value, Dict, end, is_json, is_json_dict}
use anchor_runtime.Model.{Uuid, Budget, budget_to_dict, opt_field, count_value, amount_value}
use anchor_runtime.EventType.{run_started}
use anchor_runtime.Exec.{ok, raised}
use anchor_runtime.Postgres.Tables.{
  RunRow, Db, find_run, find_key, find_queued, to_run, not_serialisable,
}
use anchor_runtime.Postgres.Tables.Find.{
  find_run-update, find_key-update, find_key-append, find_run-append, find_run-append_ne,
}
use anchor_runtime.Postgres.Events.{next_seq, appended}
use anchor_runtime.Postgres.Events.Gapless.{
  IsGapless, seq_of, count_up, append-succeeds, append-refused,
}
use anchor_runtime.Postgres.Runs.{
  new_run, inserted, insert_run, queued, enqueue_run, find_key, started_payload, submit_run,
}

opt_field-json :
    (k : String) (o : Option Value) (d : Dict)
    → ((v : Value) → o ≡ some v → is_json v ≡ true)
    → is_json_dict d ≡ true
    → is_json_dict (opt_field k o d) ≡ true
unfolding is_json_dict
opt_field-json k none d plain h = h
opt_field-json k (some v) d plain h = ground (arith, plain v refl)

abbrev IsJsonOf : Option Value → Type 0
IsJsonOf none = Unit
IsJsonOf (some v) = is_json v ≡ true

count-json : (o : Option ℕ) (v : Value) → count_value o ≡ some v → is_json v ≡ true
unfolding is_json
count-json none v e = absurd (cc e)
count-json (some n) v e = subst (λ w. IsJsonOf w) e refl

amount-json : (o : Option ℕ) (v : Value) → amount_value o ≡ some v → is_json v ≡ true
unfolding is_json
amount-json none v e = absurd (cc e)
amount-json (some n) v e = subst (λ w. IsJsonOf w) e refl

budget-json : (b : Budget) → is_json_dict (budget_to_dict b) ≡ true
unfolding budget_to_dict is_json_dict
budget-json b = opt_field-json _ _ _ (count-json b.max_tokens) (
    opt_field-json _ _ _ (count-json b.max_tool_calls) (
      opt_field-json _ _ _ (count-json b.max_model_calls) (
        opt_field-json _ _ _ (amount-json b.max_wall_seconds)
          (opt_field-json _ _ end (amount-json b.max_cost_usd) refl))))

-- The first event is JSON exactly if the input is.
pub started-json :
    (workflow : String) (payload : Dict) (budget : Budget)
    → is_json_dict (started_payload workflow payload budget) ≡ is_json_dict payload
unfolding is_json_dict
started-json workflow payload budget = rw (budget-json budget) (ground arith)

module _ (id : Uuid) (workflow : String) (payload : Dict) (key : String) (budget : Budget)
    (db : Db) where
  abbrev pub row : RunRow
  row = new_run id workflow payload key budget db

  -- The tables after a submission that creates a run: its row, its queue entry and its first event.
  abbrev pub submitted : Db
  submitted =
      appended id run_started none (started_payload workflow payload budget) row
        (queued id (inserted row db))

  seq_of-inserted :
      (j : Uuid) → find_run id db.runs ≡ none → seq_of j (inserted row db).runs ≡ seq_of j db.runs
  seq_of-inserted j h = elim (Bool-cases (id == j)) [
    | inl same ↦
        let f : find_run j db.runs ≡ none =
          subst (λ k. find_run k db.runs ≡ none) ((eq_iff id j).0 same) h in
        rw (find_run-append j db.runs row f, same, f)
    | inr other ↦ rw (find_run-append_ne j db.runs row other)
  ]

  pub queued-IsGapless :
      find_run id db.runs ≡ none → IsGapless db → IsGapless (queued id (inserted row db))
  queued-IsGapless h g j = g j ∙ ap (count_up 1) (sym (seq_of-inserted j h))

  pub find_row : find_run id db.runs ≡ none → find_run id (inserted row db).runs ≡ some row
  find_row f = rw (find_run-append id db.runs row f, eq_refl id)

  pub find_submitted :
      find_run id db.runs ≡ none → find_run id submitted.runs ≡ some (next_seq db row)
  find_submitted f = rw (
    find_run-update id id (next_seq db) (inserted row db).runs (λ r. refl),
    eq_refl id,
    find_row f,
  )

  pub find_key_submitted :
      find_key key db.runs ≡ none → find_key key submitted.runs ≡ some (next_seq db row)
  find_key_submitted k =
      rw (find_key-update key id (next_seq db) (inserted row db).runs (λ r. refl))
        (rw (find_key-append key db.runs row) (rw (k, eq_refl key) (rw (eq_refl id))))

  -- A key that is known already gets the run that it has, and nothing is written.
  pub submit_known :
      (r : RunRow)
      → find_key key db.runs ≡ some r
      → submit_run id workflow payload key budget db ≡ (ok (to_run r, false), db)
  unfolding submit_run insert_run
  submit_known r h = ground arith

  -- With gapless logs, a new key with a fresh identifier gets a new pending run, a queue entry
  -- that can be claimed at once, and the event `RunStarted` under number 1.
  pub submit_new :
      is_json_dict payload ≡ true
      → IsGapless db
      → find_key key db.runs ≡ none
      → find_run id db.runs ≡ none
      → find_queued id db.queue ≡ none
      → submit_run id workflow payload key budget db
        ≡ (ok (to_run (next_seq db row), true), submitted)
  unfolding submit_run insert_run enqueue_run
  submit_new json g k f q = ground (
    arith,
    find_row f,
    append-succeeds id run_started none (started_payload workflow payload budget)
        (queued id (inserted row db)) row (started-json workflow payload budget ∙ json)
        (queued-IsGapless f g) (find_row f),
    find_submitted f,
  )

-- An input that is not JSON: rolled back.
pub submit_not_json :
    (id : Uuid) (workflow : String) (payload : Dict) (key : String) (budget : Budget) (db : Db)
    → is_json_dict payload ≡ false
    → find_key key db.runs ≡ none
    → find_run id db.runs ≡ none
    → find_queued id db.queue ≡ none
    → submit_run id workflow payload key budget db ≡ (raised not_serialisable, db)
unfolding submit_run insert_run enqueue_run
submit_not_json id workflow payload key budget db bad k f q = ground (
  arith,
  append-refused id run_started none (started_payload workflow payload budget)
      (queued id (inserted (row id workflow payload key budget db) db))
      (started-json workflow payload budget ∙ bad),
)

-- After a submission under a new key, a retry with the key finds its run, whatever it asks for
-- otherwise: no second run, and nothing is written.
pub submit_again :
    (id id' : Uuid) (workflow workflow' key : String) (payload payload' : Dict)
    (budget budget' : Budget) (db : Db)
    → find_key key db.runs ≡ none
    → submit_run id' workflow' payload' key budget' (submitted id workflow payload key budget db)
      ≡ (
        ok (to_run (next_seq db (row id workflow payload key budget db)), false),
        submitted id workflow payload key budget db,
      )
submit_again id id' workflow workflow' key payload payload' budget budget' db k =
    submit_known id' workflow' payload' key budget' (submitted id workflow payload key budget db) _
      (find_key_submitted id workflow payload key budget db k)
