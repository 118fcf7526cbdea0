-- ===== src/Postgres/Events/Gapless.antt =====
-- The log of each run is numbered 1, 2, 3, … without gaps, whoever writes it.
use anchor_runtime.Base.{
  ℕ, zero, suc, ◌+◌, ◌<◌, String, Bool, true, false, Option, none, some, List, [], ◌∷◌, ◌++◌, map,
  ◌≡◌, refl, sym, ap, ◌∙◌, arith, eqb, ◌==◌, eq_iff, any, if◌then◌else◌, Option-cases, Bool-cases,
  ◌⊎◌, subst, inl, inr,
}
use mathlib.Core.List.{append-nil}
use anchor_runtime.Value.{Dict, is_json_dict}
use anchor_runtime.Model.{Uuid, Event}
use anchor_runtime.Exec.{ok, raised}
use anchor_runtime.Postgres.Tables.{RunRow, EventRow, Db, find_run, update_run, not_serialisable}
use anchor_runtime.Postgres.Tables.Find.{find_run-update}
use anchor_runtime.Postgres.Events.{
  has_event, next_seq, appended, insert_event, append_event, events_of, order_by_seq, load_events,
}

-- `from`, `from + 1`, …, `n` numbers.
abbrev pub count_up : ℕ → ℕ → List ℕ
count_up from zero = []
count_up from (suc n) = from ∷ count_up (suc from) n

abbrev pub seqs : List Event → List ℕ
seqs = map (λ e. e.seq)

abbrev pub counter : Option RunRow → ℕ
counter none = 0
counter (some r) = r.event_seq

-- The counter on the row of a run, 0 without a row.
abbrev pub seq_of : Uuid → List RunRow → ℕ
seq_of id rs = counter (find_run id rs)

-- The events of every run carry the numbers from 1 to its counter, in the order of writing.
abbrev pub IsGapless : Db → Type 0
IsGapless db = (id : Uuid) → seqs (events_of id db.events) ≡ count_up 1 (seq_of id db.runs)

count_up-suc : (from n : ℕ) → count_up from (suc n) ≡ count_up from n ++ (from + n) ∷ []
count_up-suc from zero = ap (λ (k : ℕ). k ∷ []) (omega arith)
count_up-suc from (suc n) =
    ap (λ l. from ∷ l)
      (count_up-suc (suc from) n ∙ ap (λ (k : ℕ). count_up (suc from) n ++ k ∷ []) (omega arith))

seq_of-next :
    (id j : Uuid) (db : Db) (r : RunRow) (rs : List RunRow)
    → find_run id rs ≡ some r
    → seq_of j (update_run id (next_seq db) rs) ≡ (if id == j then suc r.event_seq else seq_of j rs)
seq_of-next id j db r rs h =
    rw (find_run-update id j (next_seq db) rs (λ x. refl)) (ground (arith, eq_iff id j))

events_of-append :
    (j : Uuid) (es : List EventRow) (e : EventRow)
    → seqs (events_of j (es ++ e ∷ []))
      ≡ seqs (events_of j es) ++ (if e.run_id == j then e.event.seq ∷ [] else [])
events_of-append j [] e = ground arith
events_of-append j (x ∷ es) e = ground (arith, events_of-append j es e)

-- The number `n` is in the list.
abbrev has_seq : ℕ → List ℕ → Bool
has_seq n = any (λ k. eqb k n)

has_event-eq-has_seq :
    (id : Uuid) (n : ℕ) (es : List EventRow)
    → has_event id n es ≡ has_seq n (seqs (events_of id es))
has_event-eq-has_seq id n [] = refl
has_event-eq-has_seq id n (x ∷ es) = ground (arith, has_event-eq-has_seq id n es)

has_seq-count_up : (from m n : ℕ) → from + m < suc n → has_seq n (count_up from m) ≡ false
has_seq-count_up from zero n h = refl
has_seq-count_up from (suc m) n h = ground (arith, has_seq-count_up (suc from) m n)

-- A payload that is not JSON is refused, and nothing is written.
pub append-refused :
    (id : Uuid) (type : String) (key : Option String) (payload : Dict) (db : Db)
    → is_json_dict payload ≡ false
    → append_event id type key payload db ≡ (raised not_serialisable, db)
unfolding append_event
append-refused id type key payload db bad = rw bad refl

append-missing :
    (id : Uuid) (type : String) (key : Option String) (payload : Dict) (db : Db)
    → is_json_dict payload ≡ true
    → find_run id db.runs ≡ none
    → append_event id type key payload db ≡ (ok none, db)
unfolding append_event insert_event
append-missing id type key payload db json h = rw (json, h, insert_event)

-- The key (run_id, seq) of the next event is free.
next_free :
    (id : Uuid) (db : Db) (r : RunRow)
    → IsGapless db
    → find_run id db.runs ≡ some r
    → has_event id (r.event_seq + 1) db.events ≡ false
next_free id db r g h =
    has_event-eq-has_seq id (r.event_seq + 1) db.events
    ∙ (rw (g id) (rw h (has_seq-count_up 1 r.event_seq (r.event_seq + 1) (omega arith))))

-- With gapless logs, an append of a JSON payload to a known run gets the next number: the key
-- (run_id, seq) never clashes.
pub append-succeeds :
    (id : Uuid) (type : String) (key : Option String) (payload : Dict) (db : Db) (r : RunRow)
    → is_json_dict payload ≡ true
    → IsGapless db
    → find_run id db.runs ≡ some r
    → append_event id type key payload db
      ≡ (ok (some (r.event_seq + 1)), appended id type key payload r db)
unfolding append_event insert_event
append-succeeds id type key payload db r json g h =
    rw (json, h, next_free id db r g h, insert_event)

-- An append writes nothing, or one event of a run that is there.
pub append_cases :
    (id : Uuid) (type : String) (key : Option String) (payload : Dict) (db : Db)
    → IsGapless db
    → ((append_event id type key payload db).1 ≡ db)
      ⊎ ((r : RunRow) × (find_run id db.runs ≡ some r)
          × (append_event id type key payload db
              ≡ (ok (some (r.event_seq + 1)), appended id type key payload r db)))
append_cases id type key payload db g = elim (Bool-cases (is_json_dict payload)) [
  | inr bad ↦ inl (ap (λ p. p.1) (append-refused id type key payload db bad))
  | inl json ↦ elim (Option-cases (find_run id db.runs)) [
    | inl missing ↦ inl (ap (λ p. p.1) (append-missing id type key payload db json missing))
    | inr (r, found) ↦ inr (r, found, append-succeeds id type key payload db r json g found)
  ]
]

count_up_next :
    (b : Bool) (n s : ℕ)
    → (b ≡ true → s ≡ n)
    → count_up 1 s ++ (if b then (n + 1) ∷ [] else []) ≡ count_up 1 (if b then suc n else s)
count_up_next true n s h =
    rw (h refl) (ap (λ (k : ℕ). count_up 1 n ++ k ∷ []) (omega arith) ∙ sym (count_up-suc 1 n))
count_up_next false n s h = append-nil (count_up 1 s)

pub appended-IsGapless :
    (id : Uuid) (type : String) (key : Option String) (payload : Dict) (db : Db) (r : RunRow)
    → IsGapless db
    → find_run id db.runs ≡ some r
    → IsGapless (appended id type key payload r db)
appended-IsGapless id type key payload db r g h j =
    events_of-append j db.events _
    ∙ rw (seq_of-next id j db r db.runs h, g j)
        (count_up_next (id == j) r.event_seq (seq_of j db.runs)
          (λ e. ap counter (ap (λ k. find_run k db.runs) (sym ((eq_iff id j).0 e)) ∙ h)))

-- If the log of every run is gapless, it is so after any append, to a known run or to an unknown
-- one.
pub append-IsGapless :
    (id : Uuid) (type : String) (key : Option String) (payload : Dict) (db : Db)
    → IsGapless db
    → IsGapless (append_event id type key payload db).1
append-IsGapless id type key payload db g = elim (append_cases id type key payload db g) [
  | inl same ↦ subst IsGapless (sym same) g
  | inr (r, found, done) ↦ rw done (appended-IsGapless id type key payload db r g found)
]

load_events-seqs_from :
    (from n : ℕ) (es : List Event) → seqs es ≡ count_up from n → order_by_seq es ≡ es
load_events-seqs_from from n [] h = refl
load_events-seqs_from from zero (e ∷ es) h = cc
load_events-seqs_from from (suc n) (e ∷ []) h = refl
load_events-seqs_from from (suc zero) (e ∷ f ∷ es) h = cc
load_events-seqs_from from (suc (suc n)) (e ∷ f ∷ es) h =
    rw (load_events-seqs_from (suc from) (suc n) (f ∷ es) (cc)) (ground arith)

-- With gapless logs, replay sees the whole log of the run, in the order of writing and numbered
-- from 1.
load_events_numbered :
    (id : Uuid) (db : Db)
    → IsGapless db
    → (load_events id db ≡ (ok (events_of id db.events), db))
      × (seqs (events_of id db.events) ≡ count_up 1 (seq_of id db.runs))
unfolding load_events
load_events_numbered id db g =
    (rw (load_events-seqs_from 1 (seq_of id db.runs) (events_of id db.events) (g id)), g id)
