-- ===== src/Context/Durable/Attempt.antt =====
-- What an attempt holds, compared with what the log of its run records.
use anchor_runtime.Base.{
  ℕ, String, Bool, true, false, Option, none, some, List, [], ◌∷◌, Assoc, ◌≡◌, sym, ap, subst, ◌∙◌,
  ◌==◌, if◌then◌else◌, lookup, insert, lookup-insert, Bool-cases, inl, inr,
}
use anchor_runtime.Value.{Value, Dict, get?, is_json_dict}
use anchor_runtime.Model.{Uuid}
use anchor_runtime.EventType.{step_completed}
use anchor_runtime.Postgres.Tables.{Db, Sql}
use anchor_runtime.Postgres.Events.{append_event}
use anchor_runtime.Postgres.Events.Gapless.{append-refused}
use anchor_runtime.Postgres.Runs.{is_cancel_requested, save_usage}
use anchor_runtime.Machine.{
  Interference, crash, others, Context, Machine, after_interference, call, sleep,
}
use anchor_runtime.Machine.Preserves.{Preserves}
use anchor_runtime.Context.Guards.{Runtime, append, persist_usage}
use anchor_runtime.Context.Replay.State.{silent, completed, newest, recorded}
use anchor_runtime.Context.Preserves.{IsStable, IsCount, Landed}
use anchor_runtime.Context.Durable.Log.{
  log_of, HasRun, Later, Later-refl, append-Later, save_usage-Later, append-done, done, done-HasRun,
  done-recorded,
}

-- The others neither lose nor replace a recorded result of the run; they may add to its log, and to
-- all else.
abbrev pub IsMonotone : Uuid → List Interference → Type 0
IsMonotone id [] = Unit
IsMonotone id (crash ∷ rest) = IsMonotone id rest
IsMonotone id (others f ∷ rest) =
    ((db : Db) → HasRun id db → Later id db (f db)) × IsMonotone id rest

-- Every result that the attempt holds is recorded; `C` holds of these results and of the ordinals.
pub record IsDurable (id : Uuid) (C : Assoc Value → Assoc ℕ → Type 0) (s : Machine) : Type 0 where
  pub has_run : HasRun id s.db
  pub kept :
      (k : String) (v : Value)
      → lookup k s.ctx.completed ≡ some v
      → recorded k (log_of id s.db) none ≡ some v
  pub monotone : IsMonotone id s.schedule
  pub results : C s.ctx.completed s.ctx.ordinals

recorded_or_kept :
    (b : Bool) (v w : Value) (held old : Option Value)
    → (if b then some v else held) ≡ some w
    → (held ≡ some w → old ≡ some w)
    → newest (if b then completed v else silent) old ≡ some w
recorded_or_kept true v w held old e kept = e
recorded_or_kept false v w held old e kept = kept e

module _ (id : Uuid) (C : Assoc Value → Assoc ℕ → Type 0) where
  moved-IsDurable :
      (s : Machine) (db : Db) (es : List Interference)
      → Later id s.db db
      → IsMonotone id es
      → IsDurable id C s
      → IsDurable id C (record s { db = db; schedule = es })
  moved-IsDurable s db es later calm h = record {
    has_run = later.has_run;
    kept = λ k v e. later.results k v (h.kept k v e);
    monotone = calm;
    results = h.results;
  }

  after-IsDurable :
      {A : Type 0} (op : Sql A) (es : List Interference) (s : Machine)
      → ((db : Db) → HasRun id db → Later id db (op db).1)
      → IsMonotone id es
      → IsDurable id C s
      → IsDurable id C (after_interference es op s).1
  after-IsDurable op [] s later calm h =
      moved-IsDurable s (op s.db).1 s.schedule (later s.db h.has_run) h.monotone h
  after-IsDurable op (crash ∷ rest) s later calm h =
      moved-IsDurable s s.db rest (Later-refl id s.db h.has_run) calm h
  after-IsDurable op (others f ∷ rest) s later calm h =
      let t = record s { schedule = rest; db = f s.db } in
      let moved = moved-IsDurable s (f s.db) rest (calm.0 s.db h.has_run) calm.1 h in
      moved-IsDurable t (op t.db).1 rest (later t.db moved.has_run) calm.1 moved

  pub call-IsDurable :
      {A : Type 0} (op : Sql A)
      → ((db : Db) → HasRun id db → Later id db (op db).1)
      → Preserves (IsDurable id C) (call op)
  unfolding call
  call-IsDurable op later s h = after-IsDurable op s.schedule s later h.monotone h

  module _ (key : String)
      (grows : (v : Value) (c : Assoc Value) (o : Assoc ℕ) → C c o → C (insert key v c) o) where
    completed-recorded :
        (v : Value) (payload : Dict) (db : Db) (h : HasRun id db)
        → get? "result" payload ≡ some v
        → (c : Assoc Value)
        → ((k : String) (w : Value) → lookup k c ≡ some w → recorded k (log_of id db) none ≡ some w)
        → (k : String) (w : Value) → lookup k (insert key v c) ≡ some w
        → recorded k (log_of id (done id step_completed (some key) payload db h)) none ≡ some w
    completed-recorded v payload db h result c kept k w e =
        done-recorded id step_completed (some key) payload db h k
        ∙ rw result (
            recorded_or_kept (key == k) v w (lookup k c) (recorded k (log_of id db) none)
              (sym (lookup-insert key k v c) ∙ e) (kept k w))

    abbrev complete_with : Dict → Sql (Option ℕ)
    complete_with payload = append_event id step_completed (some key) payload

    -- Nobody interferes with the append.
    at_once-IsDurable :
        (v : Value) (payload : Dict) (s : Machine)
        → get? "result" payload ≡ some v
        → IsDurable id C s
        → Landed
            (IsDurable id C)
            key
            v
            (complete_with payload s.db).0
            (record s { db = (complete_with payload s.db).1 })
    at_once-IsDurable v payload s result h = elim (Bool-cases (is_json_dict payload)) [
      | inl json ↦
          subst (λ p. Landed (IsDurable id C) key v p.0 (record s { db = p.1 }))
            (sym (append-done id step_completed (some key) payload s.db h.has_run json))
            (record {
              has_run = done-HasRun id step_completed (some key) payload s.db h.has_run;
              kept = completed-recorded v payload s.db h.has_run result s.ctx.completed h.kept;
              monotone = h.monotone;
              results = grows v s.ctx.completed s.ctx.ordinals h.results;
            })
      | inr bad ↦
          subst (λ p. Landed (IsDurable id C) key v p.0 (record s { db = p.1 }))
            (sym (append-refused id step_completed (some key) payload s.db bad)) h
    ]

    after_append-IsDurable :
        (v : Value) (payload : Dict) (es : List Interference) (s : Machine)
        → get? "result" payload ≡ some v
        → IsMonotone id es
        → IsDurable id C s
        → Landed
            (IsDurable id C)
            key
            v
            (after_interference es (complete_with payload) s).0
            (after_interference es (complete_with payload) s).1
    after_append-IsDurable v payload [] s result calm h = at_once-IsDurable v payload s result h
    after_append-IsDurable v payload (crash ∷ rest) s result calm h =
        moved-IsDurable s s.db rest (Later-refl id s.db h.has_run) calm h
    after_append-IsDurable v payload (others f ∷ rest) s result calm h =
        at_once-IsDurable v payload (record s { schedule = rest; db = f s.db }) result
          (moved-IsDurable s (f s.db) rest (calm.0 s.db h.has_run) calm.1 h)

counted-IsDurable :
    (id : Uuid) (C : Assoc Value → Assoc ℕ → Type 0) (f : Context → Context)
    → IsCount f
    → (s : Machine) → IsDurable id C s
    → IsDurable id C (record s { ctx = f s.ctx })
counted-IsDurable id C f same s h = record {
  has_run = h.has_run;
  kept = λ k v e. h.kept k v (sym (ap (λ c. lookup k c) (same.completed s.ctx)) ∙ e);
  monotone = h.monotone;
  results =
      subst (λ o. C (f s.ctx).completed o) (sym (same.ordinals s.ctx))
        (subst (λ c. C c s.ctx.ordinals) (sym (same.completed s.ctx)) h.results);
}

pub Durable-IsStable :
    (rt : Runtime) (C : Assoc Value → Assoc ℕ → Type 0) (key : String)
    → ((v : Value) (c : Assoc Value) (o : Assoc ℕ) → C c o → C (insert key v c) o)
    → IsStable rt (IsDurable rt.run_id C) key
unfolding append persist_usage call sleep is_cancel_requested
Durable-IsStable rt C key grows =
    let id = rt.run_id in
    record {
      written = λ type k payload other.
          call-IsDurable id C (append_event id type k payload)
            (λ db. append-Later id type k payload db other);
      landed = λ v payload result s h.
          after_append-IsDurable id C key grows v payload s.schedule s result h.monotone h;
      saved =
          λ s. call-IsDurable id C (save_usage id s.ctx.usage) (save_usage-Later id s.ctx.usage) s;
      slept = λ d. call-IsDurable id C _ (λ db h. record {
        has_run = record { gapless = h.gapless; row = h.row; found = h.found };
        results = λ k v r. r;
      });
      asked = call-IsDurable id C (is_cancel_requested id) (λ db h. Later-refl id db h);
      counted = counted-IsDurable id C;
    }
