-- ===== src/Postgres/Queue/Heartbeat.antt =====
-- Heartbeats and releases: a lease is extended by its owner alone, and nobody can take it away.
use anchor_runtime.Base.{
  ℕ, ◌+◌, ◌<◌, String, Bool, true, false, ◌&&◌, Option, none, some, List, [], ◌∷◌, ◌≡◌, ◌≢◌, ◌↔◌,
  refl, arith, ap, ◌∙◌, sym, ◌==◌, eq_iff, keep, not, is_some, if◌then◌else◌, Option-cases,
  Bool-cases, inl, inr,
}
use anchor_runtime.Model.{Uuid, Time}
use anchor_runtime.Exec.{ok}
use anchor_runtime.Postgres.Tables.{QueueRow, Db, find?, find_queued}
use anchor_runtime.Postgres.Queue.{
  is_worker, is_locked, holds_lease, claim, heartbeat, release, dequeue,
}
use anchor_runtime.Postgres.Queue.Rows.{IsKeyed, find_queued-update, find_queued_key}
use anchor_runtime.Postgres.Queue.Lease.{holder, owner, owner-claim}

abbrev holds : String → Time → Option QueueRow → Bool
holds w now none = false
holds w now (some q) = is_worker w q.worker_id && is_locked now q.locked_until

no_holding :
    (id : Uuid) (w : String) (now : Time) (qs : List QueueRow)
    → find_queued id qs ≡ none
    → find? (holds_lease id w now) qs ≡ none
unfolding find_queued
no_holding id w now [] h = refl
no_holding id w now (x ∷ qs) h = ground (arith, no_holding id w now qs)

find_holding :
    (id : Uuid) (w : String) (now : Time) (qs : List QueueRow)
    → IsKeyed qs
    → is_some (find? (holds_lease id w now) qs) ≡ holds w now (find_queued id qs)
unfolding find_queued
find_holding id w now [] k = refl
find_holding id w now (x ∷ qs) k = elim (Bool-cases (x.run_id == id)) [
  | inl same ↦
      let apart : find? (λ q. q.run_id == id) qs ≡ none =
        ap (λ j. find? (λ q. q.run_id == j) qs) (sym ((eq_iff x.run_id id).0 same)) ∙ k.0 in
      ground (arith, no_holding id w now qs apart)
  | inr differs ↦ rw differs (find_holding id w now qs k.1)
]

holds_iff :
    (b : Bool) (w : String) (o : Option String)
    → (ok (is_worker w o && b) ≡ ok true) ↔ ((if b then o else none) ≡ some w)
holds_iff b w none = ground arith
holds_iff b w (some u) = ground (arith, eq_iff u w)

-- With one queue row per run, a heartbeat succeeds exactly if the worker's lease on the run is
-- running.
pub heartbeat_iff_owner :
    (id : Uuid) (w : String) (lease : ℕ) (db : Db)
    → IsKeyed db.queue
    → ((heartbeat id w lease db).0 ≡ ok true) ↔ (owner id db ≡ some w)
unfolding heartbeat
heartbeat_iff_owner id w lease db k = elim (Option-cases (find_queued id db.queue)) [
  | inl missing ↦ rw (find_holding id w db.now db.queue k, missing) (ground arith)
  | inr (q, e) ↦
      rw (find_holding id w db.now db.queue k, e)
        (holds_iff (is_locked db.now q.locked_until) w q.worker_id)
]

-- The store calls of workers on the queue, and the passing of time.
pub data QueueCall : Type 0 where
  claims : String → ℕ → QueueCall
  beats : Uuid → String → ℕ → QueueCall
  releases : Uuid → String → ℕ → QueueCall
  dequeues : Uuid → QueueCall
  waits : ℕ → QueueCall

abbrev pub perform : QueueCall → Db → Db
perform (claims w lease) db = (claim w lease db).1
perform (beats id w lease) db = (heartbeat id w lease db).1
perform (releases id w delay) db = (release id w delay db).1
perform (dequeues id) db = (dequeue id db).1
perform (waits d) db = record db { now = db.now + d }

-- The calls by which the worker `w` itself, or a finished run, gives the lease up.
abbrev pub GivesUp : Uuid → String → QueueCall → Type 0
GivesUp id w (releases j v delay) = (j ≡ id) × (v ≡ w)
GivesUp id w (dequeues j) = j ≡ id
GivesUp id w _ = ⊥

abbrev until : Option QueueRow → Option Time
until none = none
until (some q) = q.locked_until

-- The lease of the run lasts beyond the call.
abbrev pub Outlasts : Uuid → Db → QueueCall → Type 0
Outlasts id db (waits d) = is_locked (db.now + d) (until (find_queued id db.queue)) ≡ true
Outlasts id db (beats j w lease) = 0 < lease
Outlasts id db (claims w lease) = 0 < lease
Outlasts id db _ = Unit

owned_row :
    (id : Uuid) (w : String) (db : Db)
    → owner id db ≡ some w
    → (q : QueueRow) × (find_queued id db.queue ≡ some q)
owned_row id w db o = elim (Option-cases (find_queued id db.queue)) [
  | inl missing ↦ absurd (cc (missing, o))
  | inr found ↦ found
]

owner-heartbeat :
    (id j : Uuid) (w v : String) (lease : ℕ) (db : Db)
    → owner id db ≡ some w
    → 0 < lease
    → owner id (heartbeat j v lease db).1 ≡ some w
unfolding heartbeat
owner-heartbeat id j w v lease db o t =
    let (q, e) = owned_row id w db o in
    let held : holder db.now (some q) ≡ some w = ap (holder db.now) (sym e) ∙ o in
    rw
      (
        find_queued-update id (holds_lease j v db.now)
            (λ r. record r { locked_until = some (db.now + lease) }) db.queue (λ r. refl),
        e,
      )
      (ground arith)

owner-release :
    (id j : Uuid) (w v : String) (delay : ℕ) (db : Db)
    → owner id db ≡ some w
    → ¬ ((j ≡ id) × (v ≡ w))
    → owner id (release j v delay db).1 ≡ some w
unfolding release
owner-release id j w v delay db o n =
    let (q, e) = owned_row id w db o in
    let held : holder db.now (some q) ≡ some w = ap (holder db.now) (sym e) ∙ o in
    rw
      (
        find_queued-update id (λ q. q.run_id == j && is_worker v q.worker_id)
            (λ q. record q { locked_until = none; worker_id = none; visible_at = db.now + delay })
            db.queue (λ r. refl),
        e,
      )
      (ground (arith, find_queued_key id db.queue q e, eq_iff q.run_id j, eq_iff w v, n))

find_queued-dequeue :
    (id j : Uuid) (qs : List QueueRow)
    → j ≢ id
    → find_queued id (keep (λ q. not (q.run_id == j)) qs) ≡ find_queued id qs
unfolding find_queued
find_queued-dequeue id j [] n = refl
find_queued-dequeue id j (x ∷ qs) n =
    ground (arith, eq_iff x.run_id j, eq_iff x.run_id id, find_queued-dequeue id j qs n)

owner-dequeue :
    (id j : Uuid) (w : String) (db : Db)
    → owner id db ≡ some w
    → j ≢ id
    → owner id (dequeue j db).1 ≡ some w
unfolding dequeue
owner-dequeue id j w db o n = rw (find_queued-dequeue id j db.queue n) o

owner-wait :
    (id : Uuid) (w : String) (d : ℕ) (db : Db)
    → owner id db ≡ some w
    → is_locked (db.now + d) (until (find_queued id db.queue)) ≡ true
    → holder (db.now + d) (find_queued id db.queue) ≡ some w
owner-wait id w d db o t = elim (Option-cases (find_queued id db.queue)) [
  | inl missing ↦ absurd (cc (missing, o))
  | inr (q, e) ↦ rw e (ground (arith, rw e at o, rw e at t))
]

-- With one queue row per run: while the lease of `w` on a run lasts, no call of the queue takes
-- the run away from it but its own release and a dequeue of the run. Claims, heartbeats and
-- releases by others, and the passing of time, leave it the owner.
pub lease_stable :
    (id : Uuid) (w : String) (db : Db) (c : QueueCall)
    → IsKeyed db.queue
    → owner id db ≡ some w
    → ¬ GivesUp id w c
    → Outlasts id db c
    → owner id (perform c db) ≡ some w
lease_stable id w db (claims v lease) k o n t = owner-claim v lease db id w k o
lease_stable id w db (beats j v lease) k o n t = owner-heartbeat id j w v lease db o t
lease_stable id w db (releases j v delay) k o n t = owner-release id j w v delay db o n
lease_stable id w db (dequeues j) k o n t = owner-dequeue id j w db o n
lease_stable id w db (waits d) k o n t = owner-wait id w d db o t
