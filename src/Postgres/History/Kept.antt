-- ===== src/Postgres/History/Kept.antt =====
-- Every call of the store keeps the tables well-formed.
use anchor_runtime.Base.{
  String, Bool, true, false, Option, none, some, List, [], ◌∷◌, ◌≡◌, refl, sym, ap, subst, ◌∙◌,
  arith, ◌==◌, eq_iff, Option-cases, Bool-cases, ◌&&◌, inl, inr,
}
use anchor_runtime.Value.{Value, Dict, is_json, is_json_dict}
use anchor_runtime.Model.{Uuid, Budget, RunStatus}
use anchor_runtime.EventType.{run_started}
use anchor_runtime.Postgres.Tables.{RunRow, Db, find_run, find_key, find_queued, unique_violation}
use anchor_runtime.Postgres.Tables.Find.{find_run-append_ne}
use anchor_runtime.Postgres.Events.Gapless.{append-succeeds}
use anchor_runtime.Postgres.Effects.{record_side_effect}
use anchor_runtime.Postgres.Effects.Once.{
  IsOnce, record_side_effect-IsOnce, record_side_effect_cases,
}
use anchor_runtime.Postgres.Runs.{
  submit_run, set_status, is_json_error, bump_attempt, save_usage, with_status, with_usage, bumped,
  queued, inserted, insert_run, started_payload,
}
use anchor_runtime.Exec.{raised}
use anchor_runtime.Postgres.Runs.Submit.{
  row, find_row, queued-IsGapless, submit_known, submit_new, started-json, submit_not_json,
}
use anchor_runtime.Postgres.History.{
  StoreCall, submit, append, status, attempt, usage, cancel, effect, queue, after, history,
}
use anchor_runtime.Postgres.Queue.Changed.{find_queued-append_ne, IsKeyed-append}
use anchor_runtime.Postgres.History.WellFormed.{
  IsWellFormed, update_run-IsWellFormed, append-IsWellFormed, cancel-IsWellFormed,
  perform-IsWellFormed,
}

-- A submission whose key is new and whose identifier is not: rolled back.
pub submit_clash :
    (id : Uuid) (workflow : String) (payload : Dict) (key : String) (budget : Budget) (db : Db)
    (r : RunRow)
    → find_key key db.runs ≡ none
    → find_run id db.runs ≡ some r
    → submit_run id workflow payload key budget db ≡ (raised unique_violation, db)
unfolding submit_run insert_run
submit_clash id workflow payload key budget db r new taken = ground arith

module _ (id : Uuid) (workflow : String) (payload : Dict) (key : String) (budget : Budget) (db : Db)
    (w : IsWellFormed db) where
  -- The new row and its queue entry.
  abbrev pub entered : Db
  entered = queued id (inserted (row id workflow payload key budget db) db)

  entered-known :
      (j : Uuid) (b : Bool)
      → (id == j) ≡ b
      → find_run id db.runs ≡ none
      → find_run j entered.runs ≡ none
      → find_queued j entered.queue ≡ none
  entered-known j true same fresh h =
      let there = find_row id workflow payload key budget db fresh in
      cc ((eq_iff id j).0 same, there, h)
  entered-known j false other fresh h =
      find_queued-append_ne j db.queue _ other
        (w.known j (sym (find_run-append_ne j db.runs _ other) ∙ h))

  pub entered-IsWellFormed : find_run id db.runs ≡ none → IsWellFormed entered
  entered-IsWellFormed fresh = record {
    gapless = queued-IsGapless id workflow payload key budget db fresh w.gapless;
    keyed = IsKeyed-append db.queue _ w.keyed (w.known id fresh);
    known = λ j h. entered-known j (id == j) refl fresh h;
    once = w.once;
  }

  submit_new-IsWellFormed :
      is_json_dict payload ≡ true
      → find_key key db.runs ≡ none
      → find_run id db.runs ≡ none
      → IsWellFormed (submit_run id workflow payload key budget db).1
  submit_new-IsWellFormed json new fresh =
      let done =
        submit_new id workflow payload key budget db json w.gapless new fresh (w.known id fresh) in
      let start =
        append-succeeds id run_started none (started_payload workflow payload budget) entered
          (row id workflow payload key budget db) (started-json workflow payload budget ∙ json)
          (entered-IsWellFormed fresh).gapless (find_row id workflow payload key budget db fresh) in
      rw done (
        subst (λ d. IsWellFormed d) (ap (λ p. p.1) start)
          (append-IsWellFormed id run_started none (started_payload workflow payload budget) entered
            (entered-IsWellFormed fresh)))

  submit-IsWellFormed : IsWellFormed (submit_run id workflow payload key budget db).1
  submit-IsWellFormed = elim (Option-cases (find_key key db.runs)) [
    | inr (r, old) ↦ rw (submit_known id workflow payload key budget db r old) w
    | inl new ↦ elim (Option-cases (find_run id db.runs)) [
      | inr (r, taken) ↦ rw (submit_clash id workflow payload key budget db r new taken) w
      | inl fresh ↦ elim (Bool-cases (is_json_dict payload)) [
        | inl json ↦ submit_new-IsWellFormed json new fresh
        | inr bad ↦
            rw (submit_not_json id workflow payload key budget db bad new fresh (w.known id fresh))
              w
      ]
    ]
  ]

effect-IsWellFormed :
    (token run : Uuid) (kind : String) (payload : Dict) (db : Db)
    → IsWellFormed db
    → IsWellFormed (record_side_effect token run kind payload db).1
effect-IsWellFormed token run kind payload db w =
    let once = record_side_effect-IsOnce token run kind payload db w.once in
    elim (record_side_effect_cases token run kind payload db) [
      | inl same ↦ subst (λ d. IsWellFormed d) (sym same) w
      | inr (new, more) ↦
          subst (λ d. IsWellFormed d) (sym more)
            (record {
              gapless = w.gapless;
              keyed = w.keyed;
              known = w.known;
              once = subst (λ d. IsOnce d) more once;
            })
    ]

status-IsWellFormed :
    (id : Uuid) (s : RunStatus) (result : Value) (error : Option Dict) (db : Db)
    → IsWellFormed db
    → IsWellFormed (set_status id s result error db).1
unfolding set_status
status-IsWellFormed id s result error db w =
    elim (Bool-cases (is_json result && is_json_error error)) [
      | inl json ↦
          rw json (
            update_run-IsWellFormed id (with_status s result error db) db (λ r. refl) (λ r. refl) w)
      | inr bad ↦ rw bad w
    ]

pub after-IsWellFormed : (c : StoreCall) (db : Db) → IsWellFormed db → IsWellFormed (after c db)
unfolding set_status bump_attempt save_usage
after-IsWellFormed (submit id workflow payload key budget) db w =
    submit-IsWellFormed id workflow payload key budget db w
after-IsWellFormed (append id type key payload) db w = append-IsWellFormed id type key payload db w
after-IsWellFormed (status id s result error) db w = status-IsWellFormed id s result error db w
after-IsWellFormed (attempt id) db w =
    update_run-IsWellFormed id (bumped db) db (λ r. refl) (λ r. refl) w
after-IsWellFormed (usage id u) db w =
    update_run-IsWellFormed id (with_usage u db) db (λ r. refl) (λ r. refl) w
after-IsWellFormed (cancel id) db w = cancel-IsWellFormed id db w
after-IsWellFormed (effect token run kind payload) db w =
    effect-IsWellFormed token run kind payload db w
after-IsWellFormed (queue c) db w = perform-IsWellFormed c db w

-- Whatever calls of the store are made, by any number of workers and clients and in any order, the
-- tables stay well-formed.
pub history-IsWellFormed :
    (cs : List StoreCall) (db : Db) → IsWellFormed db → IsWellFormed (history cs db)
unfolding history
history-IsWellFormed [] db w = w
history-IsWellFormed (c ∷ cs) db w =
    history-IsWellFormed cs (after c db) (after-IsWellFormed c db w)
