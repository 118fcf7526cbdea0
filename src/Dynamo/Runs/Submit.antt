-- ===== src/Dynamo/Runs/Submit.antt =====
-- Submissions under a key that is taken.
use anchor_runtime.Base.{String, Bool, false, none, some, ◌≡◌, refl, lookup}
use anchor_runtime.Value.{Dict}
use anchor_runtime.Model.{Uuid, Budget, RunRecord}
use anchor_runtime.Exec.{ok}
use anchor_runtime.Dynamo.Attr.{text}
use anchor_runtime.Dynamo.Service.{Item, Service}
use anchor_runtime.Dynamo.Keys.{run_pk, idem_pk}
use anchor_runtime.Dynamo.Runs.{get_run, existing_run, submit_run}
use anchor_runtime.Dynamo.RunItems.{Client, from_item}

module _ (S : Service) (client : Client) (queued : Bool) (id : Uuid) (workflow : String)
    (payload : Dict) (key : String) (budget : Budget) (s : S.State) (slot : Item) (owner : Uuid)
    (taken : S.get s (idem_pk key) "KEY" ≡ some slot)
    (names : lookup "run_id" slot ≡ some (text owner)) where
  -- A submission under a key that is taken returns the run that has it, and writes nothing.
  pub key_returns_run :
      (item : Item) (run : RunRecord)
      → S.get s (run_pk owner) "META" ≡ some item
      → from_item client item ≡ some run
      → submit_run S client queued id workflow payload key budget s ≡ (ok (some run, false), s)
  unfolding submit_run existing_run get_run
  key_returns_run item run there good = rw (taken, taken, names, there, good) refl

  -- A key whose run was never written, because the process died after it had reserved the key, stays
  -- so: every submission under it returns no run and writes nothing.
  pub reserved_key_is_stuck :
      S.get s (run_pk owner) "META" ≡ none
      → submit_run S client queued id workflow payload key budget s ≡ (ok (none, false), s)
  unfolding submit_run existing_run get_run
  reserved_key_is_stuck missing = rw (taken, taken, names, missing) refl
