-- ===== src/Postgres/Queue/Lease.antt =====
-- The lease: who holds a run, and how that changes.
use anchor_runtime.Base.{
  ℕ, ◌+◌, ◌≤◌, ◌<◌, String, true, Option, none, some, ◌≡◌, ◌≢◌, ap, sym, ◌∙◌, arith, ◌==◌, eq_iff,
  eq_refl, keep, if◌then◌else◌, Option-cases, inl, inr, refl,
}
use anchor_runtime.Model.{Uuid, Time, Claim}
use anchor_runtime.Exec.{ok}
use anchor_runtime.Postgres.Tables.{QueueRow, Db, find_queued}
use anchor_runtime.Postgres.Queue.{
  is_locked, is_claimable, leased_to, first_visible, claimed, claim,
}
use anchor_runtime.Postgres.Queue.Rows.{
  IsKeyed, find_queued-update, find_queued_key, first_visible_found, first_visible_min,
}

abbrev pub holder : Time → Option QueueRow → Option String
holder now none = none
holder now (some q) = if is_locked now q.locked_until then q.worker_id else none

-- The worker whose lease on the run is running, if any.
abbrev pub owner : Uuid → Db → Option String
owner id db = holder db.now (find_queued id db.queue)

module _ (w : String) (lease : ℕ) (db : Db) where
  -- What a claim that returns a run has done.
  pub claim_inv :
      (c : Claim) (db' : Db)
      → claim w lease db ≡ (ok (some c), db')
      → (q : QueueRow) × (first_visible (keep (is_claimable db.now) db.queue) ≡ some q)
        × (c.run_id ≡ q.run_id)
        × (db' ≡ claimed w lease q db)
  unfolding claim
  claim_inv c db' h = elim (Option-cases (first_visible (keep (is_claimable db.now) db.queue))) [
    | inl empty ↦ absurd (cc (rw (empty, claim) at h))
    | inr (q, e) ↦ (q, e, ground arith, ground arith)
  ]

  owner-claimed_self :
      (q : QueueRow)
      → find_queued q.run_id db.queue ≡ some q
      → 0 < lease
      → owner q.run_id (claimed w lease q db) ≡ some w
  owner-claimed_self q f pos =
      rw
        (
          find_queued-update q.run_id (λ r. r.run_id == q.run_id) (leased_to w (db.now + lease))
              db.queue (λ r. refl),
          f,
        )
        (ground (arith, eq_refl q.run_id))

  owner-claimed_ne :
      (q : QueueRow) (j : Uuid) → j ≢ q.run_id → owner j (claimed w lease q db) ≡ owner j db
  owner-claimed_ne q j ne =
      rw
        (find_queued-update j (λ r. r.run_id == q.run_id) (leased_to w (db.now + lease)) db.queue
          (λ r. refl))
        (elim (Option-cases (find_queued j db.queue)) [
          | inl missing ↦ rw missing
          | inr (r, e) ↦
              rw e (ground (arith, find_queued_key j db.queue r e, eq_iff r.run_id q.run_id))
        ])

  free_if_claimable :
      (o : Option QueueRow) (q : QueueRow)
      → o ≡ some q
      → is_claimable db.now q ≡ true
      → holder db.now o ≡ none
  free_if_claimable o q e t = ground arith

  -- With one queue row per run and a positive lease: a claim that returns a run takes one that
  -- nobody holds, gives it to the worker, and leaves every other run to whoever holds it.
  pub claim_takes :
      (db' : Db) (c : Claim)
      → IsKeyed db.queue
      → 0 < lease
      → claim w lease db ≡ (ok (some c), db')
      → (owner c.run_id db ≡ none)
        × (owner c.run_id db' ≡ some w)
        × ((j : Uuid) → j ≢ c.run_id → owner j db' ≡ owner j db)
  claim_takes db' c k pos h =
      let (q, e, same, after) = claim_inv c db' h in
      let (f, t) = first_visible_found (is_claimable db.now) db.queue q k e in
      (
        ap (λ i. owner i db) same ∙ free_if_claimable (find_queued q.run_id db.queue) q f t,
        rw after (ap (λ i. owner i (claimed w lease q db)) same ∙ owner-claimed_self q f pos),
        λ j ne. rw after (owner-claimed_ne q j (λ e. ne (e ∙ sym same))),
      )

  -- A claim leaves every lease that is running to its owner.
  pub owner-claim :
      (j : Uuid) (v : String)
      → IsKeyed db.queue
      → owner j db ≡ some v
      → owner j (claim w lease db).1 ≡ some v
  unfolding claim
  owner-claim j v k o = elim (Option-cases (first_visible (keep (is_claimable db.now) db.queue))) [
    | inl empty ↦ rw (empty, claim) o
    | inr (q, e) ↦
        let (f, t) = first_visible_found (is_claimable db.now) db.queue q k e in
        let free : owner q.run_id db ≡ none =
          free_if_claimable (find_queued q.run_id db.queue) q f t in
        rw (e, claim) (owner-claimed_ne q j (λ same. cc (ap (λ i. owner i db) same, free, o)) ∙ o)
  ]

  -- With one queue row per run and a positive lease, and where some run can be claimed: the claim
  -- answers with a run whose row in the queue can be claimed, with its count of attempts
  -- incremented; no run that can be claimed was visible earlier; and the worker then holds that
  -- run.
  pub claim_oldest :
      (j : Uuid) (r : QueueRow)
      → IsKeyed db.queue
      → 0 < lease
      → find_queued j db.queue ≡ some r
      → is_claimable db.now r ≡ true
      → (q : QueueRow) × (find_queued q.run_id db.queue ≡ some q)
        × (is_claimable db.now q ≡ true)
        × (q.visible_at ≤ r.visible_at)
        × ((claim w lease db).0
            ≡ ok (some (record { run_id = q.run_id; attempts = q.attempts + 1 })))
        × (owner q.run_id (claim w lease db).1 ≡ some w)
  unfolding claim
  claim_oldest j r k pos f t =
      let (q, e, le) = first_visible_min (is_claimable db.now) j db.queue r f t in
      let (there, free) = first_visible_found (is_claimable db.now) db.queue q k e in
      (q, there, free, le, rw (e, claim) refl, rw (e, claim) (owner-claimed_self q there pos))
