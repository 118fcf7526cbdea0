-- ===== src/Worker/Loop/Bounds.antt =====
-- How many runs a worker holds at once, and how many it claims after the signal.
use anchor_runtime.Base.{
  ℕ, suc, ◌≤◌, ◌<◌, ◌≡◌, refl, subst, arith, true, List, [], ◌∷◌, ◌++◌, length,
}
use anchor_runtime.Model.{Uuid}
use anchor_runtime.Worker.Loop.{
  Position, top, claiming, sleeping, waiting, draining, down, Loop, start, woken, LoopStep, signal,
  finish, leave, full, ask, nothing, take, fail, wake, no_wait, stop, Reach, here, next,
}

-- The runs in flight and the one that a pending claim may add.
abbrev held : Position → List Uuid → ℕ
held claiming ids = suc (length ids)
held p ids = length ids

abbrev IsBounded : ℕ → Loop → Type 0
IsBounded n s = held s.position s.inflight ≤ n

pub length-without :
    (before rest : List Uuid) (id : Uuid)
    → length (before ++ id ∷ rest) ≡ suc (length (before ++ rest))
length-without [] rest id = refl
length-without (x ∷ before) rest id = omega (arith, length-without before rest id)

length-held : (p : Position) (ids : List Uuid) → length ids ≤ held p ids
length-held top ids = omega arith
length-held claiming ids = omega arith
length-held sleeping ids = omega arith
length-held waiting ids = omega arith
length-held draining ids = omega arith
length-held down ids = omega arith

-- Fewer runs are held, and a task that ends leaves a pending claim pending.
held-finish :
    (p : Position) (ids more : List Uuid)
    → length ids < length more
    → held (woken p) ids ≤ held p more
held-finish top ids more h = omega arith
held-finish claiming ids more h = omega arith
held-finish sleeping ids more h = omega arith
held-finish waiting ids more h = omega arith
held-finish draining ids more h = omega arith
held-finish down ids more h = omega arith

pub finish-shorter :
    {ids : List Uuid} (before rest : List Uuid) (id : Uuid)
    → ids ≡ before ++ id ∷ rest
    → length (before ++ rest) < length ids
finish-shorter before rest id e = rw e (omega (arith, length-without before rest id))

module _ {n : ℕ} (s : Loop) (h : IsBounded n s) where
  few : length s.inflight ≤ n
  few = omega (arith, length-held s.position s.inflight, h)

  room_for_one : s.position ≡ claiming → suc (length s.inflight) ≤ n
  room_for_one at = subst (λ p. held p s.inflight ≤ n) at h

  step-IsBounded : {t : Loop} → LoopStep n s t → IsBounded n t
  step-IsBounded (signal off) = h
  step-IsBounded (finish before rest id e) = omega (
    arith,
    h,
    held-finish s.position (before ++ rest) s.inflight (finish-shorter before rest id e),
  )
  step-IsBounded (leave at off) = few
  step-IsBounded (full at on busy) = few
  step-IsBounded (ask at on room) = room
  step-IsBounded (nothing at) = few
  step-IsBounded (take id at) = room_for_one at
  step-IsBounded (fail at) = few
  step-IsBounded (wake at) = few
  step-IsBounded (no_wait at empty) = few
  step-IsBounded (stop at empty) = few

Reach-IsBounded : {n : ℕ} {s t : Loop} → IsBounded n s → Reach n s t → IsBounded n t
Reach-IsBounded h here = h
Reach-IsBounded h (next {t} r st) = step-IsBounded t (Reach-IsBounded h r) st

-- A worker never works on more runs at once than its concurrency, whatever the order in which
-- claims, tasks and the signal come.
pub never_above_concurrency : {n : ℕ} {t : Loop} → Reach n start t → length t.inflight ≤ n
never_above_concurrency {n} {t} r = few t (Reach-IsBounded (omega arith) r)

-- The claims made, with the one that is pending.
abbrev pub asked : Position → ℕ → ℕ
asked claiming claims = suc claims
asked p claims = claims

asked-woken : (p : Position) (c : ℕ) → asked (woken p) c ≤ asked p c
asked-woken top c = omega arith
asked-woken claiming c = omega arith
asked-woken sleeping c = omega arith
asked-woken waiting c = omega arith
asked-woken draining c = omega arith
asked-woken down c = omega arith

claims-asked : (p : Position) (c : ℕ) → c ≤ asked p c
claims-asked top c = omega arith
claims-asked claiming c = omega arith
claims-asked sleeping c = omega arith
claims-asked waiting c = omega arith
claims-asked draining c = omega arith
claims-asked down c = omega arith

-- After the signal: it stays set, and no further claim is begun.
record HasStopped (s t : Loop) : Type 0 where
  flag : t.shutdown ≡ true
  claims : asked t.position t.claimed ≤ asked s.position s.claimed

module _ (s t : Loop) (h : HasStopped s t) where
  no_more : t.claimed ≤ asked s.position s.claimed
  no_more = omega (arith, claims-asked t.position t.claimed, h.claims)

  one_more : t.position ≡ claiming → suc t.claimed ≤ asked s.position s.claimed
  one_more at = subst (λ p. asked p t.claimed ≤ asked s.position s.claimed) at h.claims

  step-HasStopped : {n : ℕ} {u : Loop} → LoopStep n t u → HasStopped s u
  step-HasStopped (signal off) = record { flag = refl; claims = h.claims }
  step-HasStopped (finish before rest id e) = record {
    flag = h.flag;
    claims = omega (arith, asked-woken t.position t.claimed, h.claims);
  }
  step-HasStopped (leave at off) = record { flag = h.flag; claims = no_more }
  step-HasStopped (full at on busy) = cc (h.flag, on)
  step-HasStopped (ask at on room) = cc (h.flag, on)
  step-HasStopped (nothing at) = record { flag = h.flag; claims = no_more }
  step-HasStopped (take id at) = record { flag = h.flag; claims = omega (arith, one_more at) }
  step-HasStopped (fail at) = record { flag = h.flag; claims = no_more }
  step-HasStopped (wake at) = record { flag = h.flag; claims = no_more }
  step-HasStopped (no_wait at empty) = record { flag = h.flag; claims = no_more }
  step-HasStopped (stop at empty) = record { flag = h.flag; claims = no_more }

Reach-HasStopped : {n : ℕ} {s t : Loop} → s.shutdown ≡ true → Reach n s t → HasStopped s t
Reach-HasStopped off here = record { flag = off; claims = omega arith }
Reach-HasStopped {s = s} off (next {t} r st) = step-HasStopped s t (Reach-HasStopped off r) st

-- Once the signal has come, no run is claimed but by a claim that is pending then.
pub claims_end :
    {n : ℕ} {s t : Loop} → s.shutdown ≡ true → Reach n s t → t.claimed ≤ asked s.position s.claimed
claims_end {n} {s} {t} off r = no_more s t (Reach-HasStopped off r)
