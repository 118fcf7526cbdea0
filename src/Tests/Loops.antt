-- ===== src/Tests/Loops.antt =====
-- The loop of the worker, and sequences of calls of the store.
use anchor_runtime.Base.{◌≤◌, none, true, List, [], ◌∷◌, length, ◌≡◌, refl, arith, ◌⊎◌}
use anchor_runtime.Value.{end}
use anchor_runtime.Worker.Loop.{Loop, start, LoopStep, ask, take, Reach, here, next, claiming, down}
use anchor_runtime.Worker.Loop.Bounds.{asked, never_above_concurrency, claims_end}
use anchor_runtime.Worker.Loop.Drain.{remaining, steps, shutdown_ends}
use anchor_runtime.Postgres.Queue.Heartbeat.{claims, beats, dequeues, waits}
use anchor_runtime.Postgres.History.{
  StoreCall, submit, append, cancel, effect, queue, history, no_rows,
}
use anchor_runtime.Postgres.History.WellFormed.{IsWellFormed, no_rows-IsWellFormed}
use anchor_runtime.Postgres.History.Kept.{history-IsWellFormed}
use anchor_runtime.Postgres.History.Grows.{Grows}
use anchor_runtime.Postgres.History.Growth.{history-Grows}
use anchor_runtime.Tests.Fixtures.{no_limits}

-- One run claimed and in flight.
abbrev busy : Loop
busy = record start { inflight = "r1" ∷ []; claimed = 1 }

busy_reached : Reach 2 start busy
busy_reached = next (next here (ask refl refl (omega arith))) (take "r1" refl)

-- The signal comes while a second claim is pending.
abbrev told : Loop
told = record busy { position = claiming; shutdown = true }

abbrev both : Loop
both = record start { inflight = "r2" ∷ "r1" ∷ []; claimed = 2; shutdown = true }

both_reached : Reach 2 told both
both_reached = next here (take "r2" refl)

never_above_concurrency_example : length busy.inflight ≤ 2
never_above_concurrency_example = never_above_concurrency busy_reached

claims_end_example : both.claimed ≤ asked told.position told.claimed
claims_end_example = claims_end refl both_reached

shutdown_ends_example :
    (steps both_reached ≤ remaining told)
    × ((both.position ≡ down) ⊎ ((u : Loop) × LoopStep 2 both u))
shutdown_ends_example = shutdown_ends both_reached refl

-- A run is submitted and claimed, its worker stalls, and another worker takes it over.
abbrev calls : List StoreCall
calls =
    submit "r1" "refund" end "k1" no_limits
    ∷ queue (claims "w1" 30)
    ∷ effect "t1" "r1" "refund" end
    ∷ queue (waits 60)
    ∷ queue (claims "w2" 30)
    ∷ queue (beats "r1" "w1" 30)
    ∷ effect "t1" "r1" "refund" end
    ∷ append "r1" "Note" none end
    ∷ cancel "r1"
    ∷ queue (dequeues "r1")
    ∷ []

history-IsWellFormed_example : IsWellFormed (history calls (no_rows 0))
history-IsWellFormed_example = history-IsWellFormed calls (no_rows 0) (no_rows-IsWellFormed 0)

history-Grows_example : Grows (no_rows 0) (history calls (no_rows 0))
history-Grows_example = history-Grows calls (no_rows 0) (no_rows-IsWellFormed 0)
