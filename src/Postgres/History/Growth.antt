-- ===== src/Postgres/History/Growth.antt =====
-- Every call of the store only adds to the logs and the effects, and every run goes on.
use anchor_runtime.Base.{
  String, Bool, true, false, Option, none, some, List, [], ◌∷◌, ◌++◌, ◌≡◌, refl, sym, ap, ◌∙◌,
  subst, arith, keep, ◌&&◌, ◌==◌, if◌then◌else◌, Option-cases, Bool-cases, inl, inr,
}
use mathlib.Core.List.{append-nil}
use anchor_runtime.Value.{Value, Dict, end, is_json, is_json_dict}
use anchor_runtime.Model.{Uuid, Budget, RunStatus, terminal}
use anchor_runtime.EventType.{run_started, cancel_requested}
use anchor_runtime.Postgres.Tables.{RunRow, Db, find_run, find_key, update_run}
use anchor_runtime.Postgres.Tables.Find.{find_run-update, apply_some}
use anchor_runtime.Postgres.Events.{append_event, next_seq}
use anchor_runtime.Postgres.Events.Gapless.{append_cases, append-succeeds}
use anchor_runtime.Postgres.Queue.{claim, heartbeat, release, dequeue, first_visible, is_claimable}
use anchor_runtime.Postgres.Queue.Heartbeat.{
  QueueCall, perform, claims, beats, releases, dequeues, waits,
}
use anchor_runtime.Postgres.Effects.{record_side_effect}
use anchor_runtime.Postgres.Effects.Once.{record_side_effect_cases}
use anchor_runtime.Postgres.Runs.{
  submit_run, request_cancel, set_status, bump_attempt, save_usage, with_status, with_usage,
  with_cancel, bumped, started_payload, is_json_error,
}
use anchor_runtime.Postgres.Runs.Cancel.{flagged, find_flagged, cancelled_db, request_cancel_exact}
use anchor_runtime.Postgres.Runs.Submit.{
  row, find_row, submit_known, submit_new, submit_not_json, started-json,
}
use anchor_runtime.Postgres.History.{
  StoreCall, submit, append, status, attempt, usage, cancel, effect, queue, after, history,
}
use anchor_runtime.Postgres.History.WellFormed.{
  IsWellFormed, update_run-IsWellFormed, cancel-missing,
}
use anchor_runtime.Postgres.History.Kept.{
  entered, entered-IsWellFormed, submit_clash, after-IsWellFormed,
}
use anchor_runtime.Postgres.History.Grows.{
  Succeeds, kept, Succeeds-refl, Grows, unchanged, Grows-refl, Grows-trans,
}

-- An UPDATE of one run.
update_run-Grows :
    (id : Uuid) (f : RunRow → RunRow) (db : Db)
    → ((r : RunRow) → (f r).run_id ≡ r.run_id)
    → ((r : RunRow) → Succeeds r (f r))
    → Grows db (record db { runs = update_run id f db.runs })
update_run-Grows id f db keeps up = record {
  events = ([], sym (append-nil db.events));
  effects = ([], sym (append-nil db.effects));
  runs = λ j r found. still_there j r (id == j) (find_run-update id j f db.runs keeps) found;
}
  where
    still_there :
        (j : Uuid) (r : RunRow) (b : Bool)
        → find_run j (update_run id f db.runs)
          ≡ (if b then apply_some f (find_run j db.runs) else find_run j db.runs)
        → find_run j db.runs ≡ some r
        → (s : RunRow) × (find_run j (update_run id f db.runs) ≡ some s) × Succeeds r s
    still_there j r true e found = (f r, e ∙ ap (λ o. apply_some f o) found, up r)
    still_there j r false e found = (r, e ∙ found, Succeeds-refl r)

append-Grows :
    (id : Uuid) (type : String) (key : Option String) (payload : Dict) (db : Db)
    → IsWellFormed db
    → Grows db (append_event id type key payload db).1
append-Grows id type key payload db w = elim (append_cases id type key payload db w.gapless) [
  | inl same ↦ subst (λ d. Grows db d) (sym same) (Grows-refl db)
  | inr (r, found, done) ↦
      let counted =
        update_run-Grows id (next_seq db) db (λ r. refl)
          (λ r. kept r _ refl refl refl refl refl (omega arith) (omega arith) (λ h. h)) in
      rw done (record { events = (_, refl); effects = counted.effects; runs = counted.runs })
]

find_run-append_found :
    (j : Uuid) (rs : List RunRow) (x r : RunRow)
    → find_run j rs ≡ some r
    → find_run j (rs ++ x ∷ []) ≡ some r
unfolding find_run
find_run-append_found j [] x r h = cc
find_run-append_found j (y ∷ rs) x r h = ground (arith, find_run-append_found j rs x r)

cancelled-Grows :
    (id : Uuid) (db : Db) (r : RunRow)
    → find_run id db.runs ≡ some r
    → IsWellFormed db
    → Grows db (cancelled_db id r db)
unfolding is_json_dict
cancelled-Grows id db r found w =
    let flag = update_run-IsWellFormed id (with_cancel db) db (λ x. refl) (λ x. refl) w in
    subst (λ d. Grows db d)
      (ap (λ p. p.1)
        (append-succeeds id cancel_requested none end (flagged id db) (with_cancel db r) refl
          flag.gapless (find_flagged id db r found)))
      (Grows-trans db (flagged id db) _
        (update_run-Grows id (with_cancel db) db (λ x. refl)
          (λ r. kept r _ refl refl refl refl refl (omega arith) (omega arith) (λ h. refl)))
        (append-Grows id cancel_requested none end (flagged id db) flag))

cancel-Grows : (id : Uuid) (db : Db) → IsWellFormed db → Grows db (request_cancel id db).1
cancel-Grows id db w = elim (Option-cases (find_run id db.runs)) [
  | inl missing ↦ rw (cancel-missing id db missing) (Grows-refl db)
  | inr (r, found) ↦
      let exact = request_cancel_exact id db r w.gapless found in
      elim (Bool-cases (terminal r.status)) [
        | inl over ↦ rw (exact, over) (Grows-refl db)
        | inr going ↦ rw (exact, going) (cancelled-Grows id db r found w)
      ]
]

module _ (id : Uuid) (workflow : String) (payload : Dict) (key : String) (budget : Budget) (db : Db)
    (w : IsWellFormed db) where
  entered-Grows : Grows db (entered id workflow payload key budget db w)
  entered-Grows = record {
    events = ([], sym (append-nil db.events));
    effects = ([], sym (append-nil db.effects));
    runs = λ j r h. (r, find_run-append_found j db.runs _ r h, Succeeds-refl r);
  }

  submit_new-Grows :
      is_json_dict payload ≡ true
      → find_key key db.runs ≡ none
      → find_run id db.runs ≡ none
      → Grows db (submit_run id workflow payload key budget db).1
  submit_new-Grows json new fresh =
      let start =
        append-succeeds id run_started none (started_payload workflow payload budget)
          (entered id workflow payload key budget db w) (row id workflow payload key budget db)
          (started-json workflow payload budget ∙ json)
          (entered-IsWellFormed id workflow payload key budget db w fresh).gapless
          (find_row id workflow payload key budget db fresh) in
      rw (submit_new id workflow payload key budget db json w.gapless new fresh (w.known id fresh))
        (subst (λ d. Grows db d) (ap (λ p. p.1) start)
          (Grows-trans db (entered id workflow payload key budget db w) _ entered-Grows (
            append-Grows id run_started none (started_payload workflow payload budget) _
              (entered-IsWellFormed id workflow payload key budget db w fresh))))

  submit-Grows : Grows db (submit_run id workflow payload key budget db).1
  submit-Grows = elim (Option-cases (find_key key db.runs)) [
    | inr (r, old) ↦ rw (submit_known id workflow payload key budget db r old) (Grows-refl db)
    | inl new ↦ elim (Option-cases (find_run id db.runs)) [
      | inr (r, taken) ↦
          rw (submit_clash id workflow payload key budget db r new taken) (Grows-refl db)
      | inl fresh ↦ elim (Bool-cases (is_json_dict payload)) [
        | inl json ↦ submit_new-Grows json new fresh
        | inr bad ↦
            rw (submit_not_json id workflow payload key budget db bad new fresh (w.known id fresh))
              (Grows-refl db)
      ]
    ]
  ]

effect-Grows :
    (token run : Uuid) (kind : String) (payload : Dict) (db : Db)
    → Grows db (record_side_effect token run kind payload db).1
effect-Grows token run kind payload db = elim (record_side_effect_cases token run kind payload db) [
  | inl same ↦ subst (λ d. Grows db d) (sym same) (Grows-refl db)
  | inr (new, more) ↦
      subst (λ d. Grows db d) (sym more)
        (record {
          events = ([], sym (append-nil db.events));
          effects = (_, refl);
          runs = λ id r h. (r, h, Succeeds-refl r);
        })
]

perform-Grows : (c : QueueCall) (db : Db) → Grows db (perform c db)
unfolding heartbeat release dequeue claim
perform-Grows (claims worker lease) db =
    elim (Option-cases (first_visible (keep (is_claimable db.now) db.queue))) [
      | inl empty ↦ rw (perform, empty, claim) (Grows-refl db)
      | inr (q, e) ↦ rw (perform, e, claim) (unchanged db _ refl refl refl)
    ]
perform-Grows (beats id worker lease) db = unchanged db _ refl refl refl
perform-Grows (releases id worker delay) db = unchanged db _ refl refl refl
perform-Grows (dequeues id) db = unchanged db _ refl refl refl
perform-Grows (waits d) db = unchanged db _ refl refl refl

status-Grows :
    (id : Uuid) (s : RunStatus) (result : Value) (error : Option Dict) (db : Db)
    → Grows db (set_status id s result error db).1
unfolding set_status
status-Grows id s result error db = elim (Bool-cases (is_json result && is_json_error error)) [
  | inl json ↦ rw json (
      update_run-Grows id (with_status s result error db) db (λ r. refl)
        (λ r. kept r _ refl refl refl refl refl (omega arith) (omega arith) (λ h. h)))
  | inr bad ↦ rw bad (Grows-refl db)
]

-- The columns that an UPDATE of the status, of the usage or of the attempt leaves alone.
after-Grows : (c : StoreCall) (db : Db) → IsWellFormed db → Grows db (after c db)
unfolding set_status bump_attempt save_usage
after-Grows (submit id workflow payload key budget) db w =
    submit-Grows id workflow payload key budget db w
after-Grows (append id type key payload) db w = append-Grows id type key payload db w
after-Grows (status id s result error) db w = status-Grows id s result error db
after-Grows (attempt id) db w =
    update_run-Grows id (bumped db) db (λ r. refl)
      (λ r. kept r _ refl refl refl refl refl (omega arith) (omega arith) (λ h. h))
after-Grows (usage id u) db w =
    update_run-Grows id (with_usage u db) db (λ r. refl)
      (λ r. kept r _ refl refl refl refl refl (omega arith) (omega arith) (λ h. h))
after-Grows (cancel id) db w = cancel-Grows id db w
after-Grows (effect token run kind payload) db w = effect-Grows token run kind payload db
after-Grows (queue c) db w = perform-Grows c db

-- From well-formed tables, no calls of the store, in any order, take back an event or an effect, or
-- change what a run was submitted as, lower its counters or clear its cancel flag.
pub history-Grows : (cs : List StoreCall) (db : Db) → IsWellFormed db → Grows db (history cs db)
unfolding history
history-Grows [] db w = Grows-refl db
history-Grows (c ∷ cs) db w =
    Grows-trans db (after c db) (history cs (after c db)) (after-Grows c db w)
      (history-Grows cs (after c db) (after-IsWellFormed c db w))
