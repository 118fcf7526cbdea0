-- ===== src/Worker/Settling.antt =====
-- What becomes of the queue row of a run, and of the worker's counts, when an attempt ends.
use anchor_runtime.Base.{
  ℕ, suc, ◌+◌, Bool, true, not, none, some, List, [], ◌∷◌, ◌≡◌, refl, ◌∙◌, arith, keep, is_some,
  ◌==◌, lookup, or_else, insert, lookup-insert, eq_refl, Bool-cases, inl, inr,
}
use anchor_runtime.Model.{
  Uuid, RunStatus, pending, running, completed, failed, cancelled, needs_review, terminal,
  status_value,
}
use anchor_runtime.Exec.{Reply, ok, raised, crashed}
use anchor_runtime.Postgres.Tables.{QueueRow, find_queued, update}
use anchor_runtime.Postgres.Queue.{release, dequeue}
use anchor_runtime.Machine.{Machine, call}
use anchor_runtime.Engine.{Outcome, execute, should_dequeue}
use anchor_runtime.Worker.{WorkerStats, count_status, record_outcome, Worker, owns, process}

-- Whether the run goes on waiting in the queue.
abbrev pub stays : Reply Outcome → Bool
stays (ok o) = not (terminal o.status)
stays _ = true

gone :
    (id : Uuid) (qs : List QueueRow) → find_queued id (keep (λ q. not (q.run_id == id)) qs) ≡ none
unfolding find_queued
gone id [] = refl
gone id (q ∷ qs) = ground (arith, gone id qs)

is_queued : Uuid → Machine → Bool
is_queued id m = is_some (find_queued id m.db.queue)

kept :
    (id : Uuid) (p : QueueRow → Bool) (f : QueueRow → QueueRow) (qs : List QueueRow)
    → ((q : QueueRow) → (f q).run_id ≡ q.run_id)
    → is_some (find_queued id (update p f qs)) ≡ is_some (find_queued id qs)
unfolding find_queued update
kept id p f [] keeps = refl
kept id p f (q ∷ qs) keeps = elim (Bool-cases (p q)) [
  | inl hit ↦ simp (hit, keeps q) (ground (arith, kept id p f qs keeps))
  | inr miss ↦ simp miss (ground (arith, kept id p f qs keeps))
]

-- For a run that is queued when its attempt ends, with nobody interfering from then on: it leaves
-- the queue exactly if the attempt reports a terminal status. After an exception, or after the
-- loss of the lease or of the process, it stays to be claimed again.
pub leaves_when_ended :
    (w : Worker) (id : Uuid) (stats : WorkerStats) (m n : Machine) (r : Reply Outcome)
    → execute w.engine id (some (owns w id)) m ≡ (r, n)
    → n.schedule ≡ []
    → is_some (find_queued id n.db.queue) ≡ true
    → is_some (find_queued id (process w id stats m).1.db.queue) ≡ stays r
unfolding process call should_dequeue dequeue release
leaves_when_ended w id stats m n (ok o) ran quiet queued = elim (Bool-cases (terminal o.status)) [
  | inl over ↦ rw (ran, over, quiet, gone id n.db.queue) refl
  | inr going ↦ rw (ran, going) queued
]
leaves_when_ended w id stats m n (raised e) ran quiet queued =
    rw (ran, quiet) (kept id _ _ n.db.queue (λ q. refl) ∙ queued)
leaves_when_ended w id stats m n crashed ran quiet queued = rw ran queued

-- The attempts that the counts of the worker account for.
abbrev pub counted : WorkerStats → ℕ
counted s = s.completed + s.failed + s.cancelled + s.needs_review + s.lease_lost

counted-count_status :
    (r : RunStatus) (s : WorkerStats) → counted (count_status r s) ≡ suc (counted s)
counted-count_status pending s = omega arith
counted-count_status running s = omega arith
counted-count_status completed s = omega arith
counted-count_status failed s = omega arith
counted-count_status cancelled s = omega arith
counted-count_status needs_review s = omega arith

by_status-count_status :
    (r : RunStatus) (s : WorkerStats) → (count_status r s).by_status ≡ s.by_status
by_status-count_status pending s = refl
by_status-count_status running s = refl
by_status-count_status completed s = refl
by_status-count_status failed s = refl
by_status-count_status cancelled s = refl
by_status-count_status needs_review s = refl

-- An outcome is counted once: in exactly one of the five counts, and under its status.
pub counted_once :
    (o : Outcome) (s : WorkerStats)
    → (counted (record_outcome o s) ≡ suc (counted s))
      × (lookup (status_value o.status) (record_outcome o s).by_status
          ≡ some (or_else (lookup (status_value o.status) s.by_status) 0 + 1))
unfolding record_outcome
counted_once o s =
    let value = status_value o.status in
    let n = or_else (lookup value s.by_status) 0 + 1 in
    let t = record s {
      replayed_steps = s.replayed_steps + o.replayed_steps;
      by_status = insert value n s.by_status;
    } in
    (
      counted-count_status o.status t,
      rw (by_status-count_status o.status t, lookup-insert value value n s.by_status, eq_refl value)
          refl,
    )
