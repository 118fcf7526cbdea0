-- ===== src/Postgres/Queue.antt =====
-- The methods of `PostgresStore` on the table `run_queue`: claim, heartbeat, release, dequeue. Lease
-- lengths and delays are in microseconds.
pub mod Rows
pub mod Changed
pub mod Lease
pub mod Heartbeat
pub mod Served
use anchor_runtime.Base.{
  ℕ, ◌+◌, String, Bool, true, false, not, ◌&&◌, ◌||◌, Option, none, some, List, [], ◌∷◌, length,
  leb, ltb, ◌==◌, keep, is_some, if◌then◌else◌,
}
use anchor_runtime.Model.{Uuid, Time, Claim}
use anchor_runtime.Exec.{ok, gets, modify}
use anchor_runtime.Postgres.Tables.{QueueRow, Db, Sql, find?, update}

abbrev pub is_unlocked : Time → Option Time → Bool
is_unlocked now none = true
is_unlocked now (some t) = ltb t now

abbrev pub is_claimable : Time → QueueRow → Bool
is_claimable now q = leb q.visible_at now && is_unlocked now q.locked_until

-- ORDER BY visible_at LIMIT 1; among rows that tie, the first in the table.
unfoldable pub first_visible : List QueueRow → Option QueueRow
first_visible [] = none
first_visible (q ∷ qs) = elim (first_visible qs) [
  | none ↦ some q
  | some r ↦ if leb q.visible_at r.visible_at then some q else some r
]

abbrev pub leased_to : String → Time → QueueRow → QueueRow
leased_to worker until q = record q {
  locked_until = some until;
  worker_id = some worker;
  attempts = q.attempts + 1;
}

abbrev pub claimed : String → ℕ → QueueRow → Db → Db
claimed worker lease q db = record db {
  queue = update (λ r. r.run_id == q.run_id) (leased_to worker (db.now + lease)) db.queue;
}

-- One statement. Rows that a concurrent claim has locked are skipped, so claims act one by one.
unfoldable pub claim : String → ℕ → Sql (Option Claim)
claim worker lease db = elim (first_visible (keep (is_claimable db.now) db.queue)) [
  | none ↦ (ok none, db)
  | some q ↦ (
    ok (some (record { run_id = q.run_id; attempts = q.attempts + 1 })),
    claimed worker lease q db,
  )
]

abbrev pub is_worker : String → Option String → Bool
is_worker worker none = false
is_worker worker (some w) = w == worker

-- `locked_until > now()`, false on NULL
abbrev pub is_locked : Time → Option Time → Bool
is_locked now none = false
is_locked now (some t) = ltb now t

abbrev pub holds_lease : Uuid → String → Time → QueueRow → Bool
holds_lease id worker now q =
    q.run_id == id && (is_worker worker q.worker_id && is_locked now q.locked_until)

unfoldable pub heartbeat : Uuid → String → ℕ → Sql Bool
heartbeat id worker lease db = (
  ok (is_some (find? (holds_lease id worker db.now) db.queue)),
  record db {
    queue =
        update (holds_lease id worker db.now)
          (λ q. record q { locked_until = some (db.now + lease) }) db.queue;
  },
)

unfoldable pub release : Uuid → String → ℕ → Sql Unit
release id worker delay = modify (λ db. record db {
  queue =
      update (λ q. q.run_id == id && is_worker worker q.worker_id)
        (λ q. record q { locked_until = none; worker_id = none; visible_at = db.now + delay })
        db.queue;
})

unfoldable pub dequeue : Uuid → Sql Unit
dequeue id = modify (λ db. record db { queue = keep (λ q. not (q.run_id == id)) db.queue })

pub record Depth : Type 0 where
  pub claimable : ℕ
  pub leased : ℕ
  pub total : ℕ

-- `locked_until >= now()`
abbrev is_leased : Time → Option Time → Bool
is_leased now none = false
is_leased now (some t) = leb now t

unfoldable pub queue_depth : Sql Depth
queue_depth = gets (λ db. record {
  claimable = length (keep (λ q. is_unlocked db.now q.locked_until) db.queue);
  leased = length (keep (λ q. is_leased db.now q.locked_until) db.queue);
  total = length db.queue;
})
