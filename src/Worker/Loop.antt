-- ===== src/Worker/Loop.antt =====
-- `run_forever` of src/anchor/worker.py as a step relation: the coroutine of the loop, the tasks that
-- it starts, and the signal that shuts it down interleave at every `await`. What a task does is
-- `process`.
pub mod Bounds
pub mod Drain
use anchor_runtime.Base.{ℕ, ◌+◌, ◌≤◌, ◌<◌, ◌≡◌, Bool, true, false, List, [], ◌∷◌, ◌++◌, length}
use anchor_runtime.Model.{Uuid}

-- Where the coroutine of the loop stands.
pub data Position : Type 0 where
  top : Position  -- before the test of the `while`
  claiming : Position  -- in `store.claim`
  sleeping : Position  -- in `_sleep_or_shutdown`
  waiting : Position  -- in `_wait_for_slot`
  draining : Position  -- in the `finally`
  down : Position  -- returned

pub record Loop : Type 0 where
  pub position : Position
  pub inflight : List Uuid
  pub shutdown : Bool
  pub claimed : ℕ

abbrev pub start : Loop
start = record { position = top; inflight = []; shutdown = false; claimed = 0 }

-- A task that ends wakes a loop that waits for a slot.
abbrev pub woken : Position → Position
woken waiting = top
woken p = p

-- `concurrency` is `settings.worker_concurrency`.
pub data LoopStep (concurrency : ℕ) (s : Loop) : Loop → Type 0 where
  -- `request_shutdown`
  signal : s.shutdown ≡ false → LoopStep concurrency s (record s { shutdown = true })
  -- the callback of a task that is done
  finish :
      (before rest : List Uuid) (id : Uuid)
      → s.inflight ≡ before ++ id ∷ rest
      → LoopStep concurrency s (record s { inflight = before ++ rest; position = woken s.position })
  leave :
      s.position ≡ top
      → s.shutdown ≡ true
      → LoopStep concurrency s (record s { position = draining })
  full :
      s.position ≡ top
      → s.shutdown ≡ false
      → concurrency ≤ length s.inflight
      → LoopStep concurrency s (record s { position = waiting })
  ask :
      s.position ≡ top
      → s.shutdown ≡ false
      → length s.inflight < concurrency
      → LoopStep concurrency s (record s { position = claiming })
  nothing : s.position ≡ claiming → LoopStep concurrency s (record s { position = sleeping })
  take :
      (id : Uuid)
      → s.position ≡ claiming
      → LoopStep concurrency s
          (record s { position = top; inflight = id ∷ s.inflight; claimed = s.claimed + 1 })
  -- `claim` raises, and the `finally` runs.
  fail : s.position ≡ claiming → LoopStep concurrency s (record s { position = draining })
  wake : s.position ≡ sleeping → LoopStep concurrency s (record s { position = top })
  -- `_wait_for_slot` returns at once if there is no task.
  no_wait :
      s.position ≡ waiting → s.inflight ≡ [] → LoopStep concurrency s (record s { position = top })
  stop :
      s.position ≡ draining
      → s.inflight ≡ []
      → LoopStep concurrency s (record s { position = down })

pub data Reach (concurrency : ℕ) (s : Loop) : Loop → Type 0 where
  here : Reach concurrency s s
  next : {t u : Loop} → Reach concurrency s t → LoopStep concurrency t u → Reach concurrency s u
