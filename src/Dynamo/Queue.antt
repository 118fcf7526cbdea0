-- ===== src/Dynamo/Queue.antt =====
-- The methods of `DynamoDBStore` on the queue: a message that was received is invisible until its
-- timeout, and the item LEASE#worker keeps the handle by which its owner extends it.
use anchor_runtime.Base.{
  ℕ, ◌/◌, String, Bool, false, Option, none, some, List, [], ◌∷◌, lookup, insert, leb,
  if◌then◌else◌,
}
use anchor_runtime.Model.{Uuid, Claim}
use anchor_runtime.Errors.{other}
use anchor_runtime.Exec.{ok, pure, gets, modify, or_raise, ◌>>=◌, ◌>>◌}
use anchor_runtime.Dynamo.Attr.{Attr, number, text, million}
use anchor_runtime.Dynamo.Service.{Item, Service, Aws, update_item, sort_keys}
use anchor_runtime.Dynamo.Keys.{run_pk, lease_sk}
use anchor_runtime.Dynamo.Events.{as_int, as_text, add_one}

-- `max(least, int(seconds))`, from microseconds
abbrev whole_seconds : ℕ → ℕ → ℕ
whole_seconds least t = if leb least (t / million) then t / million else least

abbrev pub lease_item : String → String → String → Item
lease_item worker receipt now =
    ("receipt_handle", text receipt) ∷ ("worker_id", text worker) ∷ ("claimed_at", text now) ∷ []

-- `if_not_exists(attempt_count, :zero)`
abbrev from_zero : Option Attr → Item → Item
from_zero none item = insert "attempt_count" (number 0) item
from_zero (some a) item = item

abbrev pub count_delivery : Item → Option Item
count_delivery item = add_one "attempt_count" (from_zero (lookup "attempt_count" item) item)

module _ (S : Service) where
  abbrev pub delete_all : String → List String → S.State → S.State
  delete_all p [] s = s
  delete_all p (k ∷ ks) s = delete_all p ks (S.delete p k s)

  -- The lease items of the run, whoever had it.
  abbrev pub drop_leases : Uuid → Aws S Unit
  drop_leases id =
      modify (λ s. delete_all (run_pk id) (sort_keys (S.query s (run_pk id) "LEASE#")) s)

  abbrev pub delivered : Uuid → Option ℕ → Aws S (Option Claim)
  delivered id count = do
    attempts ← or_raise count (other "KeyError" "'attempt_count'")
    pure (some (record { run_id = id; attempts = attempts }))

  abbrev pub take_message : String → Option (String × String) → Aws S (Option Claim)
  take_message worker none = pure none
  take_message worker (some (id, receipt)) = do
    drop_leases id
    modify (λ s. S.put (run_pk id) (lease_sk worker) (lease_item worker receipt (S.now s)) s)
    new ← update_item S (run_pk id) "META" count_delivery
    delivered id (as_int (lookup "attempt_count" new))

  abbrev pub receive_one : ℕ → Aws S (Option (String × String))
  receive_one lease s = let (m, t) = S.receive (whole_seconds 1 lease) s in (ok m, t)

  unfoldable pub claim : String → ℕ → Aws S (Option Claim)
  claim worker lease = do message ← receive_one lease; take_message worker message

  abbrev handle_of : Item → Aws S String
  handle_of item =
      or_raise (as_text (lookup "receipt_handle" item)) (other "KeyError" "'receipt_handle'")

  abbrev set_visibility : String → ℕ → Aws S Bool
  set_visibility handle seconds s =
      let (done, t) = S.change_visibility handle seconds s in (ok done, t)

  abbrev extend : Option Item → ℕ → Aws S Bool
  extend none lease = pure false
  extend (some item) lease = do
    handle ← handle_of item
    set_visibility handle (whole_seconds 1 lease)

  unfoldable pub heartbeat : Uuid → String → ℕ → Aws S Bool
  heartbeat id worker lease = do
    item ← gets (λ s. S.get s (run_pk id) (lease_sk worker))
    extend item lease

  abbrev give_back : Option Item → ℕ → Aws S Unit
  give_back none delay = pure tt
  give_back (some item) delay = do
    handle ← handle_of item
    set_visibility handle (whole_seconds 0 delay)
    pure tt

  unfoldable pub release : Uuid → String → ℕ → Aws S Unit
  release id worker delay = do
    item ← gets (λ s. S.get s (run_pk id) (lease_sk worker))
    give_back item delay

  abbrev remove_message : String → Aws S Bool
  remove_message handle s = let (done, t) = S.delete_message handle s in (ok done, t)

  abbrev finish_lease : Uuid → List (String × Item) → Aws S Unit
  finish_lease id [] = pure tt
  finish_lease id ((k, item) ∷ rest) = do
    handle ← handle_of item
    remove_message handle
    modify (λ s. S.delete (run_pk id) k s)

  -- The first lease item, whoever has it.
  unfoldable pub dequeue : Uuid → Aws S Unit
  dequeue id = do found ← gets (λ s. S.query s (run_pk id) "LEASE#"); finish_lease id found
