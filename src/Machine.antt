-- ===== src/Machine.antt =====
-- What a coroutine of an attempt acts on: the database, what the rest of the world does between its
-- calls, and the mutable attributes of the attempt's `RunContext` (src/anchor/context.py).
pub mod Preserves
pub mod Keeps
use anchor_runtime.Base.{ℕ, zero, suc, ◌+◌, List, [], ◌∷◌, Assoc}
use anchor_runtime.Value.{Value}
use anchor_runtime.Model.{Time, Budget, Usage}
use anchor_runtime.Exec.{Reply, ok, crashed, Exec, modify, pure}
use anchor_runtime.Postgres.Tables.{Db, Sql}

-- What may happen before a call of the store takes effect: the process dies, or others (workers,
-- clients, the clock, downstream systems) change the database.
pub data Interference : Type 0 where
  crash : Interference
  others : (Db → Db) → Interference

-- `budget`, `usage` and `run_created_at` are those of the attribute `self.budget`.
pub record Context : Type 0 where
  pub budget : Budget
  pub usage : Usage
  pub run_created_at : Time
  pub ordinals : Assoc ℕ
  pub completed : Assoc Value
  pub unresolved : Assoc Value
  pub replayed_steps : ℕ
  pub executed_steps : ℕ

-- Each call of the store takes one entry of the schedule; after the last, nobody interferes.
pub record Machine : Type 0 where
  pub db : Db
  pub schedule : List Interference
  pub ctx : Context

abbrev pub M : Type 0 → Type 0
M A = Exec Machine A

abbrev pub run_sql : {A : Type 0} → Sql A → M A
run_sql op m = let (r, db) = op m.db in (r, record m { db = db })

abbrev pub after_interference : {A : Type 0} → List Interference → Sql A → M A
after_interference [] op m = run_sql op m
after_interference (crash ∷ rest) op m = (crashed, record m { schedule = rest })
after_interference (others f ∷ rest) op m = run_sql op (record m { schedule = rest; db = f m.db })

-- `await self.store.…`
unfoldable pub call : {A : Type 0} → Sql A → M A
call op m = after_interference m.schedule op m

-- `asyncio.sleep`
unfoldable pub sleep : ℕ → M Unit
unfolding call
sleep d = call (modify (λ db. record db { now = db.now + d }))

-- `if delay: await asyncio.sleep(delay)`
abbrev pub pause : ℕ → M Unit
pause zero = pure tt
pause (suc d) = sleep (suc d)

abbrev pub modify_ctx : (Context → Context) → M Unit
modify_ctx f m = (ok tt, record m { ctx = f m.ctx })

-- `try: m` with a handler for every ending but the death of the process.
abbrev pub with_reply : {A B : Type 0} → M A → (Reply A → M B) → M B
with_reply m h s = let (r, t) = m s in h r t
