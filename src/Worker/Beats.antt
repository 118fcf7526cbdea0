-- ===== src/Worker/Beats.antt =====
-- The heartbeat task of a worker, and the lease on the run that the worker has claimed.
use anchor_runtime.Base.{
  ℕ, zero, suc, ◌+◌, ◌<◌, String, true, some, List, [], ◌∷◌, ◌≡◌, ◌≢◌, refl, sym, ap, ◌∙◌, arith,
  ◌==◌, eq_iff, eq_refl, keep, Option-cases, inl, inr,
}
use anchor_runtime.Model.{Uuid, Time}
use anchor_runtime.Exec.{ok, modify}
use anchor_runtime.Postgres.Tables.{QueueRow, Db, Sql, find_queued}
use anchor_runtime.Postgres.Queue.{
  is_claimable, holds_lease, leased_to, first_visible, claimed, claim, heartbeat,
}
use anchor_runtime.Postgres.Queue.Rows.{
  IsKeyed, find_queued-update, find_queued_key, first_visible_found, IsKeyed-update,
}
use anchor_runtime.Postgres.Queue.Lease.{owner}
use anchor_runtime.Postgres.Queue.Heartbeat.{heartbeat_iff_owner}
use anchor_runtime.Machine.{Interference, crash, others, Machine, after_interference, call, sleep}
use anchor_runtime.Worker.{Worker, heartbeat_task}

-- The worker's lease on the run goes on for longer than so many microseconds.
pub record HasLease (id : Uuid) (w : String) (need : ℕ) (db : Db) : Type 0 where
  pub keyed : IsKeyed db.queue
  pub row : QueueRow
  pub until : Time
  pub found : find_queued id db.queue ≡ some row
  pub mine : row.worker_id ≡ some w
  pub locked : row.locked_until ≡ some until
  pub lasts : db.now + need < until

module _ (id : Uuid) (w : String) (need : ℕ) (db : Db) (h : HasLease id w need db) where
  pub HasLease-owner : owner id db ≡ some w
  HasLease-owner = rw (h.found, h.locked) (ground (arith, h.mine, h.lasts))

  holding : holds_lease id w db.now h.row ≡ true
  holding =
      rw (h.mine, h.locked)
        (ground (
          arith,
          find_queued_key id db.queue h.row h.found,
          eq_iff h.row.run_id id,
          eq_refl w,
          h.lasts,
        ))

  extended : (lease next : ℕ) → next < lease → HasLease id w next (heartbeat id w lease db).1
  unfolding heartbeat
  extended lease next lasts =
      let row = h.row in
      record {
        keyed =
            IsKeyed-update (holds_lease id w db.now)
              (λ q. record q { locked_until = some (db.now + lease) }) db.queue (λ q. refl) h.keyed;
        row = record row { locked_until = some (db.now + lease) };
        until = db.now + lease;
        found =
            find_queued-update id (holds_lease id w db.now)
              (λ q. record q { locked_until = some (db.now + lease) }) db.queue (λ q. refl)
            ∙ rw (h.found, holding) refl;
        mine = h.mine;
        locked = refl;
        lasts = omega (arith, lasts);
      }

  not_claimable :
      (q : QueueRow) → find_queued id db.queue ≡ some q → is_claimable db.now q ≡ true → ⊥
  not_claimable q found t = ground (arith, sym h.found ∙ found, h.locked, h.lasts)

  after_claim :
      (v : String) (lease : ℕ) (q : QueueRow)
      → id ≢ q.run_id
      → HasLease id w need (claimed v lease q db)
  after_claim v lease q ne = record {
    keyed =
        IsKeyed-update (λ r. r.run_id == q.run_id) (leased_to v (db.now + lease)) db.queue
          (λ r. refl) h.keyed;
    row = h.row;
    until = h.until;
    found =
        find_queued-update id (λ r. r.run_id == q.run_id) (leased_to v (db.now + lease)) db.queue
          (λ r. refl)
        ∙ rw h.found (
            ground
              (arith, find_queued_key id db.queue h.row h.found, eq_iff h.row.run_id q.run_id));
    mine = h.mine;
    locked = h.locked;
    lasts = h.lasts;
  }

  untouched : (v : String) (lease : ℕ) → HasLease id w need (claim v lease db).1
  unfolding claim
  untouched v lease = elim (Option-cases (first_visible (keep (is_claimable db.now) db.queue))) [
    | inl empty ↦ rw (empty, claim) h
    | inr (q, e) ↦
        let (f, t) = first_visible_found (is_claimable db.now) db.queue q h.keyed e in
        rw (e, claim)
          (after_claim v lease q
            (λ same. not_claimable q (ap (λ j. find_queued j db.queue) same ∙ f) t))
  ]

-- What others do leaves the lease as it is, and takes no time.
abbrev pub IsGentle : Uuid → String → ℕ → (Db → Db) → Type 0
IsGentle id w lease f =
    (need : ℕ) (db : Db) → need < lease → HasLease id w need db → HasLease id w need (f db)

abbrev pub AllGentle : Uuid → String → ℕ → List Interference → Type 0
AllGentle id w lease [] = Unit
AllGentle id w lease (crash ∷ rest) = ⊥
AllGentle id w lease (others f ∷ rest) = IsGentle id w lease f × AllGentle id w lease rest

pub claim-IsGentle :
    (id : Uuid) (w v : String) (lease length : ℕ)
    → IsGentle id w lease (λ db. (claim v length db).1)
claim-IsGentle id w v lease length need db lasts h = untouched id w need db h v length

module _ (worker : Worker) (id : Uuid) where
  abbrev w : String
  w = worker.worker_id

  abbrev lease : ℕ
  lease = worker.engine.settings.lease_seconds

  abbrev beat : ℕ
  beat = worker.engine.settings.heartbeat_seconds

  -- The call takes effect while the lease still goes on for as long.
  after_others :
      {A : Type 0} (op : Sql A) (need : ℕ) (es : List Interference) (s : Machine)
      → need < lease
      → AllGentle id w lease es
      → HasLease id w need s.db
      → (db : Db) × (rest : List Interference) × HasLease id w need db
        × AllGentle id w lease rest
        × (after_interference es op (record s { schedule = es })
            ≡ ((op db).0, record s { db = (op db).1; schedule = rest }))
  after_others op need [] s lasts gentle h = (s.db, [], h, tt, refl)
  after_others op need (crash ∷ rest) s lasts gentle h = absurd gentle
  after_others op need (others f ∷ rest) s lasts (first, gentle) h =
      (f s.db, rest, first need s.db lasts h, gentle, refl)

  slept : (db : Db) → HasLease id w beat db → HasLease id w 0 (record db { now = db.now + beat })
  slept db h = record {
    keyed = h.keyed;
    row = h.row;
    until = h.until;
    found = h.found;
    mine = h.mine;
    locked = h.locked;
    lasts = omega (arith, h.lasts);
  }

  held_after :
      (rounds : ℕ) (s : Machine)
      → beat < lease
      → AllGentle id w lease s.schedule
      → HasLease id w beat s.db
      → (t : Machine) × (heartbeat_task worker id rounds s ≡ (ok true, t)) × HasLease id w beat t.db
  unfolding heartbeat_task call sleep
  held_after zero s lasts gentle h = (s, refl, h)
  held_after (suc rounds) s lasts gentle h =
      let (db, es, before, gentle', e) =
        after_others (modify (λ d. record d { now = d.now + beat })) beat s.schedule s lasts gentle
          h in
      let woken : Machine = record s { db = record db { now = db.now + beat }; schedule = es } in
      let (db', es', now_held, gentle'', e') =
        after_others (heartbeat id w lease) 0 es woken (omega (arith, lasts)) gentle'
          (slept db before) in
      let beaten : Machine = record s { db = (heartbeat id w lease db').1; schedule = es' } in
      let accepted : (heartbeat id w lease db').0 ≡ ok true =
        (heartbeat_iff_owner id w lease db' now_held.keyed).1
          (HasLease-owner id w 0 db' now_held) in
      let (t, ran, last) =
        held_after rounds beaten lasts gentle'' (extended id w 0 db' now_held lease beat lasts) in
      (t, rw (e, e', accepted) ran, last)

-- Where heartbeats come more often than a lease lasts, the task that sends them is never told that
-- the lease is gone, and after any number of rounds the worker still holds the run: whatever others
-- do between the calls of the task, as long as it neither ends this lease nor takes time.
pub heartbeats_hold_lease :
    (worker : Worker) (id : Uuid) (rounds : ℕ) (s : Machine)
    → worker.engine.settings.heartbeat_seconds < worker.engine.settings.lease_seconds
    → AllGentle id worker.worker_id worker.engine.settings.lease_seconds s.schedule
    → HasLease id worker.worker_id worker.engine.settings.heartbeat_seconds s.db
    → ((heartbeat_task worker id rounds s).0 ≡ ok true)
      × (owner id (heartbeat_task worker id rounds s).1.db ≡ some worker.worker_id)
heartbeats_hold_lease worker id rounds s often gentle h =
    let (t, ran, held) = held_after worker id rounds s often gentle h in
    rw ran
      (refl, HasLease-owner id worker.worker_id worker.engine.settings.heartbeat_seconds t.db held)
