-- ===== src/Worker/Loop/Drain.antt =====
-- After the signal, the loop ends.
use anchor_runtime.Base.{
  ℕ, suc, ◌+◌, ◌*◌, ◌≤◌, ◌<◌, ◌≡◌, refl, arith, true, List, [], ◌∷◌, length, ◌⊎◌, inl, inr,
}
use anchor_runtime.Model.{Uuid}
use anchor_runtime.Worker.Loop.{
  Position, top, claiming, sleeping, waiting, draining, down, Loop, woken, LoopStep, signal, finish,
  leave, full, ask, nothing, take, fail, wake, no_wait, stop, Reach, here, next,
}
use anchor_runtime.Worker.Loop.Bounds.{finish-shorter}

-- How far each position is from the end.
abbrev distance : Position → ℕ
distance claiming = 5
distance sleeping = 3
distance waiting = 3
distance top = 2
distance draining = 1
distance down = 0

-- What is left to do after the signal: the tasks, and the way of the loop to its end.
abbrev pub remaining : Loop → ℕ
remaining s = 2 * length s.inflight + distance s.position

distance-woken : (p : Position) → distance (woken p) ≤ distance p
distance-woken top = omega arith
distance-woken claiming = omega arith
distance-woken sleeping = omega arith
distance-woken waiting = omega arith
distance-woken draining = omega arith
distance-woken down = omega arith

-- Every step that is taken after the signal brings the loop nearer to its end.
pub step_nearer :
    {n : ℕ} {s t : Loop} → s.shutdown ≡ true → LoopStep n s t → remaining t < remaining s
step_nearer off (signal on) = cc (off, on)
step_nearer {s = s} off (finish before rest id e) =
    omega (arith, distance-woken s.position, finish-shorter before rest id e)
step_nearer off (full at on busy) = cc (off, on)
step_nearer off (ask at on room) = cc (off, on)
step_nearer off (leave at _) = rw at (omega arith)
step_nearer off (nothing at) = rw at (omega arith)
step_nearer off (take id at) = rw at (omega arith)
step_nearer off (fail at) = rw at (omega arith)
step_nearer off (wake at) = rw at (omega arith)
step_nearer off (no_wait at empty) = rw at (omega arith)
step_nearer off (stop at empty) = rw at (omega arith)

keeps_flag : {n : ℕ} {s t : Loop} → s.shutdown ≡ true → LoopStep n s t → t.shutdown ≡ true
keeps_flag off (signal on) = refl
keeps_flag off (finish before rest id e) = off
keeps_flag off (full at on busy) = off
keeps_flag off (ask at on room) = off
keeps_flag off (leave at _) = off
keeps_flag off (nothing at) = off
keeps_flag off (take id at) = off
keeps_flag off (fail at) = off
keeps_flag off (wake at) = off
keeps_flag off (no_wait at empty) = off
keeps_flag off (stop at empty) = off

-- Unless the loop has returned, something can happen: some task ends, or the coroutine goes on.
moves :
    {n : ℕ} (s : Loop) (p : Position) (ids : List Uuid)
    → s.position ≡ p
    → s.inflight ≡ ids
    → s.shutdown ≡ true
    → (s.position ≡ down) ⊎ ((t : Loop) × LoopStep n s t)
moves s top ids at e off = inr (_, leave at off)
moves s claiming ids at e off = inr (_, nothing at)
moves s sleeping ids at e off = inr (_, wake at)
moves s waiting [] at e off = inr (_, no_wait at e)
moves s waiting (id ∷ ids) at e off = inr (_, finish [] ids id e)
moves s draining [] at e off = inr (_, stop at e)
moves s draining (id ∷ ids) at e off = inr (_, finish [] ids id e)
moves s down ids at e off = inl at

-- The number of steps of a run of the loop.
pub steps : {n : ℕ} {s t : Loop} → Reach n s t → ℕ
steps here = 0
steps (next r st) = suc (steps r)

run_nearer :
    {n : ℕ} {s t : Loop} (r : Reach n s t)
    → s.shutdown ≡ true
    → (t.shutdown ≡ true) × (steps r + remaining t ≤ remaining s)
unfolding steps
run_nearer here off = (off, omega arith)
run_nearer (next r st) off =
    let (flag, near) = run_nearer r off in
    (keeps_flag flag st, omega (arith, near, step_nearer flag st))

-- Once the signal has come, the loop cannot go on for ever, nor get stuck: a run of it takes at most
-- `remaining` steps, and one that cannot be continued has returned.
pub shutdown_ends :
    {n : ℕ} {s t : Loop} (r : Reach n s t)
    → s.shutdown ≡ true
    → (steps r ≤ remaining s) × ((t.position ≡ down) ⊎ ((u : Loop) × LoopStep n t u))
shutdown_ends {n} {s} {t} r off =
    let (flag, near) = run_nearer r off in
    (omega (arith, near), moves t t.position t.inflight refl refl flag)
