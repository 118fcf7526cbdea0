-- ===== src/Postgres/Queue/Changed.antt =====
-- Queue rows after a DELETE and after an INSERT.
use anchor_runtime.Base.{
  Bool, false, none, List, [], ◌∷◌, ◌++◌, ◌≡◌, refl, arith, keep, ◌==◌, eq_iff, Bool-cases, inl,
  inr,
}
use anchor_runtime.Model.{Uuid}
use anchor_runtime.Postgres.Tables.{QueueRow, find_queued}
use anchor_runtime.Postgres.Queue.Rows.{IsKeyed}

pub find_queued-keep :
    (j : Uuid) (p : QueueRow → Bool) (qs : List QueueRow)
    → find_queued j qs ≡ none
    → find_queued j (keep p qs) ≡ none
unfolding find_queued
find_queued-keep j p [] h = refl
find_queued-keep j p (q ∷ qs) h = ground (arith, find_queued-keep j p qs)

pub IsKeyed-keep : (p : QueueRow → Bool) (qs : List QueueRow) → IsKeyed qs → IsKeyed (keep p qs)
IsKeyed-keep p [] k = tt
IsKeyed-keep p (q ∷ qs) k = elim (Bool-cases (p q)) [
  | inl hit ↦ rw hit (find_queued-keep q.run_id p qs k.0, IsKeyed-keep p qs k.1)
  | inr miss ↦ rw miss (IsKeyed-keep p qs k.1)
]

pub find_queued-append_ne :
    (j : Uuid) (qs : List QueueRow) (q : QueueRow)
    → (q.run_id == j) ≡ false
    → find_queued j qs ≡ none
    → find_queued j (qs ++ q ∷ []) ≡ none
unfolding find_queued
find_queued-append_ne j [] q ne h = ground arith
find_queued-append_ne j (x ∷ qs) q ne h = ground (arith, find_queued-append_ne j qs q)

pub IsKeyed-append :
    (qs : List QueueRow) (q : QueueRow)
    → IsKeyed qs
    → find_queued q.run_id qs ≡ none
    → IsKeyed (qs ++ q ∷ [])
unfolding find_queued
IsKeyed-append [] q k h = (refl, tt)
IsKeyed-append (x ∷ qs) q k h = (
  find_queued-append_ne x.run_id qs q
      (ground (arith, eq_iff q.run_id x.run_id, eq_iff x.run_id q.run_id)) k.0,
  IsKeyed-append qs q k.1 (ground arith),
)
