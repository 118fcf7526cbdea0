-- ===== src/Context/Guards.antt =====
-- What every step passes before it runs: lease, cancellation, budget.
pub mod Order
use anchor_runtime.Base.{ℕ, String, ◌<>◌, Bool, not, Option, none, some, if◌then◌else◌}
use anchor_runtime.Value.{Dict}
use anchor_runtime.Model.{Uuid, Time}
use anchor_runtime.Errors.{Host, Exn, lease_lost, cancellation_requested}
use anchor_runtime.Exec.{pure, raise, gets, raise_if, ◌>>=◌, ◌>>◌}
use anchor_runtime.Budget.{BudgetTracker, check}
use anchor_runtime.Config.{Settings}
use anchor_runtime.Registry.{Registry}
use anchor_runtime.Provider.{ModelProvider}
use anchor_runtime.Postgres.Events.{append_event}
use anchor_runtime.Postgres.Runs.{is_cancel_requested, save_usage}
use anchor_runtime.Machine.{Context, Machine, M, call}

-- The constructor's arguments that stay as they are.
pub record Runtime : Type 0 where
  pub host : Host
  pub run_id : Uuid
  pub registry : Registry
  pub provider : ModelProvider
  pub settings : Settings
  pub lease_guard : Option (M Bool)

-- `self.budget`
abbrev pub tracker : Context → BudgetTracker
tracker c = record { budget = c.budget; usage = c.usage; run_created_at = c.run_created_at }

abbrev pub raise_some : Option Exn → M Unit
raise_some none = pure tt
raise_some (some e) = raise e

-- `self.budget.check()`, at the time that the clock shows.
unfoldable pub check_budget : M Unit
check_budget = do raise_some (← gets (λ m. check (tracker m.ctx) m.db.now))

module _ (rt : Runtime) where
  abbrev pub check_lease : Option (M Bool) → M Unit
  check_lease none = pure tt
  check_lease (some guard) = do
    owned ← guard
    raise_if (not owned) (lease_lost ("lease lost for run " <> rt.run_id))

  abbrev pub check_cancel : M Unit
  check_cancel = do
    requested ← call (is_cancel_requested rt.run_id)
    raise_if requested (cancellation_requested ("run " <> rt.run_id <> " was cancelled"))

  -- `_checkpoint_guards`
  unfoldable pub checkpoint_guards : M Unit
  unfolding check_budget
  checkpoint_guards = do check_lease rt.lease_guard; check_cancel; check_budget

  -- `_persist_usage`; the lock around it has no effect on one coroutine.
  unfoldable pub persist_usage : M Unit
  persist_usage = do u ← gets (λ m. m.ctx.usage); call (save_usage rt.run_id u)

  -- `RunContext.append`
  unfoldable pub append : String → Option String → Dict → M (Option ℕ)
  append type key payload = call (append_event rt.run_id type key payload)
