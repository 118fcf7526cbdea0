-- ===== src/Postgres/Queue/Served.antt =====
-- Polling: how many claims it takes until a run that waits is claimed.
use anchor_runtime.Base.{
  ℕ, ◌+◌, ◌≤◌, ◌<◌, String, Bool, true, false, Option, some, List, [], ◌∷◌, length, ◌≡◌, ◌≢◌, refl,
  ap, ◌∙◌, arith, ◌==◌, eq_iff, keep, Bool-cases, inl, inr, ◌||◌,
}
use anchor_runtime.Model.{Uuid, Time, Claim}
use anchor_runtime.Exec.{Reply, ok}
use anchor_runtime.Postgres.Tables.{QueueRow, Db, find_queued, update}
use anchor_runtime.Postgres.Queue.{is_claimable, leased_to, first_visible, claimed, claim}
use anchor_runtime.Postgres.Queue.Rows.{
  IsKeyed, find_queued-update, find_queued_key, first_visible_found, first_visible_min,
  IsKeyed-update,
}

-- A worker asks for a run after a pause.
pub record Poll : Type 0 where
  pub pause : ℕ
  pub worker : String

abbrev pub waited : ℕ → Db → Db
waited pause db = record db { now = db.now + pause }

module _ (lease : ℕ) where
  -- What the polls get, one after the other.
  unfoldable pub replies : List Poll → Db → List (Reply (Option Claim))
  unfolding claim
  replies [] db = []
  replies (p ∷ ps) db =
      let (r, after) = claim p.worker lease (waited p.pause db) in r ∷ replies ps after

abbrev pub is_run : Uuid → Reply (Option Claim) → Bool
is_run id (ok (some c)) = c.run_id == id
is_run id _ = false

abbrev pub is_served : Uuid → List (Reply (Option Claim)) → Bool
is_served id [] = false
is_served id (r ∷ rs) = is_run id r || is_served id rs

abbrev pub duration : List Poll → ℕ
duration [] = 0
duration (p ∷ ps) = p.pause + duration ps

-- How many runs can be claimed by this time if nobody does.
abbrev pub waiting : Time → List QueueRow → ℕ
waiting by qs = length (keep (is_claimable by) qs)

no_more :
    (by : Time) (id : Uuid) (f : QueueRow → QueueRow) (qs : List QueueRow)
    → ((r : QueueRow) → is_claimable by (f r) ≡ false)
    → waiting by (update (λ r. r.run_id == id) f qs) ≤ waiting by qs
unfolding update
no_more by id f [] taken = omega arith
no_more by id f (x ∷ qs) taken = ground (arith, taken x, no_more by id f qs taken)

one_less :
    (by : Time) (id : Uuid) (f : QueueRow → QueueRow) (qs : List QueueRow) (q : QueueRow)
    → ((r : QueueRow) → is_claimable by (f r) ≡ false)
    → find_queued id qs ≡ some q
    → is_claimable by q ≡ true
    → waiting by (update (λ r. r.run_id == id) f qs) < waiting by qs
unfolding update find_queued
one_less by id f [] q taken h t = absurd (cc h)
one_less by id f (x ∷ qs) q taken h t = elim (Bool-cases (x.run_id == id)) [
  | inl hit ↦
      let same : x ≡ q = ground arith in
      let c : is_claimable by x ≡ true = ap (is_claimable by) same ∙ t in
      simp (hit, taken x, c) (omega (arith, no_more by id f qs taken))
  | inr miss ↦
      let rest = one_less by id f qs q taken (rw miss at h) t in
      elim (Bool-cases (is_claimable by x)) [
        | inl c ↦ simp (miss, c) (omega (arith, rest))
        | inr c ↦ simp (miss, c) rest
      ]
]

later_claimable :
    (now by : Time) (q : QueueRow) → now ≤ by → is_claimable now q ≡ true → is_claimable by q ≡ true
later_claimable now by q le t = ground arith

module _ (lease : ℕ) (by : Time) where
  -- The waiting run is served first, or it goes on to wait with one run less beside it.
  module _ (j : Uuid) (r : QueueRow) (p : Poll) (db : Db) (keyed : IsKeyed db.queue)
      (there : find_queued j db.queue ≡ some r) (free : is_claimable db.now r ≡ true) where
    passed_over :
        (q : QueueRow) → j ≢ q.run_id → find_queued j (claimed p.worker lease q db).queue ≡ some r
    passed_over q ne =
        find_queued-update j (λ x. x.run_id == q.run_id) (leased_to p.worker (db.now + lease))
          db.queue (λ x. refl)
        ∙ rw there (ground (arith, find_queued_key j db.queue r there, eq_iff r.run_id q.run_id))

    fewer_waiting :
        (q : QueueRow)
        → first_visible (keep (is_claimable db.now) db.queue) ≡ some q
        → db.now ≤ by
        → by ≤ db.now + lease
        → waiting by (claimed p.worker lease q db).queue < waiting by db.queue
    fewer_waiting q e before lasts =
        let (f, t) = first_visible_found (is_claimable db.now) db.queue q keyed e in
        one_less by q.run_id (leased_to p.worker (db.now + lease)) db.queue q (λ x. ground arith) f
          (later_claimable db.now by q before t)

none_left :
    (by : Time) (j : Uuid) (qs : List QueueRow) (r : QueueRow)
    → find_queued j qs ≡ some r
    → is_claimable by r ≡ true
    → waiting by qs ≤ 0
    → ⊥
none_left by j qs r there free none_waits =
    omega (arith, one_less by j (leased_to "" by) qs r (λ x. ground arith) there free)

module _ (lease : ℕ) (by : Time) (j : Uuid) (r : QueueRow) where
  claim_first :
      (w : String) (db : Db) (q : QueueRow)
      → first_visible (keep (is_claimable db.now) db.queue) ≡ some q
      → claim w lease db ≡ (
        ok (some (record { run_id = q.run_id; attempts = q.attempts + 1 })),
        claimed w lease q db,
      )
  unfolding claim
  claim_first w db q e = rw (e, claim) refl

  -- A poll that finds a run, and the polls after it.
  served_first_or_later :
      (p : Poll) (ps : List Poll) (db : Db) (q : QueueRow)
      → first_visible (keep (is_claimable (db.now + p.pause)) db.queue) ≡ some q
      → is_served j (replies lease (p ∷ ps) db) ≡ (
          (q.run_id == j)
          || is_served j (replies lease ps (claimed p.worker lease q (waited p.pause db))))
  unfolding replies claim
  served_first_or_later p ps db q e =
      ap (λ (x : Reply (Option Claim) × Db). is_served j (x.0 ∷ replies lease ps x.1))
        (claim_first p.worker (waited p.pause db) q e)

  served_within :
      (ps : List Poll) (db : Db)
      → IsKeyed db.queue
      → find_queued j db.queue ≡ some r
      → is_claimable db.now r ≡ true
      → db.now + duration ps ≤ by
      → by ≤ db.now + lease
      → waiting by db.queue ≤ length ps
      → is_served j (replies lease ps db) ≡ true
  unfolding replies claim
  served_within [] db keyed there free before lasts few = absurd (
      none_left by j db.queue r there (later_claimable db.now by r (omega (arith, before)) free)
        few)
  served_within (p ∷ ps) db keyed there free before lasts few =
      let at = waited p.pause db in
      let free_then = later_claimable db.now at.now r (omega arith) free in
      let (q, e, le) = first_visible_min (is_claimable at.now) j db.queue r there free_then in
      let first = served_first_or_later p ps db q e in
      elim (Bool-cases (q.run_id == j)) [
        | inl same ↦ first ∙ ground (arith, same)
        | inr other ↦
            let rest =
              served_within ps (claimed p.worker lease q at)
                (IsKeyed-update (λ x. x.run_id == q.run_id) (leased_to p.worker (at.now + lease))
                  db.queue (λ x. refl) keyed)
                (passed_over lease by j r p at keyed there free_then q
                  (λ s. ground (arith, other, eq_iff q.run_id j)))
                free_then (omega (arith, before)) (omega (arith, lasts))
                (omega (
                  arith,
                  few,
                  fewer_waiting lease by j r p at keyed there free_then q e (omega (arith, before))
                      (omega (arith, lasts)),
                )) in
            first ∙ ground (arith, rest, other)
      ]

-- A run that can be claimed is claimed by one of the next polls, whichever workers poll and however
-- long they pause, if there are as many polls as runs that can be claimed until the last of them, a
-- lease lasts that long, and nobody else changes the queue: no run is passed over for ever.
pub waiting_run_served :
    (lease : ℕ) (ps : List Poll) (db : Db) (j : Uuid) (r : QueueRow)
    → IsKeyed db.queue
    → find_queued j db.queue ≡ some r
    → is_claimable db.now r ≡ true
    → duration ps ≤ lease
    → waiting (db.now + duration ps) db.queue ≤ length ps
    → is_served j (replies lease ps db) ≡ true
waiting_run_served lease ps db j r keyed there free lasts few =
    served_within lease (db.now + duration ps) j r ps db keyed there free (omega arith)
      (omega (arith, lasts)) few
