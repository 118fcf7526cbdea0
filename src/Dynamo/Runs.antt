-- ===== src/Dynamo/Runs.antt =====
-- The methods of `DynamoDBStore` on the items of runs.
pub mod Submit
use anchor_runtime.Base.{
  ℕ, ◌+◌, ◌*◌, String, ◌<>◌, Bool, true, false, ◌&&◌, ◌||◌, Option, none, some, List, [], ◌∷◌,
  lookup, insert, or_else, is_some, keep, take, map, leb, ◌==◌, if◌then◌else◌,
}
use anchor_runtime.Value.{Value, is_json, is_json_dict, null, str, obj, Dict, end, field, is_null}
use anchor_runtime.Model.{
  Uuid, Time, RunStatus, pending, running, completed, failed, cancelled, needs_review, terminal,
  status_value, Budget, budget_to_dict, budget_from_dict, Usage, usage_to_dict, usage_from_dict,
  RunRecord,
}
use anchor_runtime.EventType.{run_started, cancel_requested}
use anchor_runtime.Errors.{other}
use anchor_runtime.Exec.{Reply, ok, raised, pure, raise, gets, modify, or_raise, ◌>>=◌, ◌>>◌}
use anchor_runtime.Dynamo.Attr.{Attr, flag, number, text, million, enc, dec}
use anchor_runtime.Dynamo.Service.{Item, Service, Aws, sent_if, put_new, update_item, client_error}
use anchor_runtime.Dynamo.Keys.{run_pk, idem_pk}
use anchor_runtime.Dynamo.Events.{as_int, as_text, add_one, dec_or_empty, append_event}
use anchor_runtime.Dynamo.RunItems.{
  status_from, then_try, is_true, text_of, Client, from_item, run_item, started_payload,
}

-- `", #r = :r"` and the like: only if there is a value.
abbrev set_if : Bool → String → Attr → Item → Item
set_if b name a item = if b then insert name a item else item

abbrev can_send_error : Option Dict → Bool
can_send_error none = true
can_send_error (some error) = is_json_dict error

abbrev error_attr : Option Dict → Attr
error_attr none = enc null
error_attr (some d) = enc (obj d)

module _ (S : Service) where
  abbrev set_meta : Uuid → (String → Item → Option Item) → Aws S Item
  set_meta id change = do now ← gets S.now; update_item S (run_pk id) "META" (change now)

  abbrev touched : String → Item → Item
  touched now item = insert "updated_at" (text now) item

  unfoldable pub set_status : Uuid → RunStatus → Value → Option Dict → Aws S Unit
  unfolding is_json_dict
  set_status id status result error =
      sent_if S (is_json result && can_send_error error) (
        set_meta id (λ now item. some (
          set_if (terminal status) "finished_at" (text now) (
            set_if (is_some error) "error" (error_attr error) (
              set_if (if is_null result then false else true) "result" (enc result)
                (touched now (insert "status" (text (status_value status)) item)))))))
      >> pure tt

  abbrev key_error : {A : Type 0} → String → Option A → Aws S A
  key_error name a = or_raise a (other "KeyError" ("'" <> name <> "'"))

  unfoldable pub bump_attempt : Uuid → Aws S ℕ
  bump_attempt id = do
    new ← set_meta id (λ now item. then_try (add_one "attempt" item) (λ i. some (touched now i)))
    key_error "attempt" (as_int (lookup "attempt" new))

  unfoldable pub save_usage : Uuid → Usage → Aws S Unit
  save_usage id u =
      set_meta id
        (λ now item. some (touched now (insert "usage" (enc (obj (usage_to_dict u))) item)))
      >> pure tt

  -- The condition of `request_cancel`.
  abbrev pub can_cancel : Option Item → Bool
  can_cancel none = false
  can_cancel (some item) = elim (text_of "status" item) [
    | none ↦ false
    | some s ↦ s == status_value pending || s == status_value running
  ]

  unfoldable pub request_cancel : Uuid → Aws S Bool
  request_cancel id = do
    open_run ← gets (λ s. can_cancel (S.get s (run_pk id) "META"))
    if open_run
        then (do
          set_meta id (λ now item. some (touched now (insert "cancel_requested" (flag true) item)))
          append_event S id cancel_requested none end
          pure true)
        else pure false

  abbrev cancel_flag : Option Item → Bool
  cancel_flag none = false
  cancel_flag (some item) = is_true (lookup "cancel_requested" item)

  unfoldable pub is_cancel_requested : Uuid → Aws S Bool
  is_cancel_requested id = gets (λ s. cancel_flag (S.get s (run_pk id) "META"))

  abbrev read_run : Client → Option Item → Aws S (Option RunRecord)
  read_run client none = pure none
  read_run client (some item) = do
    run ← or_raise (from_item client item) (other "KeyError" "an attribute of a run item")
    pure (some run)

  unfoldable pub get_run : Client → Uuid → Aws S (Option RunRecord)
  unfolding from_item
  get_run client id = do item ← gets (λ s. S.get s (run_pk id) "META"); read_run client item

  -- The key is taken: the run that has it, which may be missing.
  unfoldable pub existing_run : Client → String → Aws S (Option RunRecord × Bool)
  unfolding get_run
  existing_run client key = do
    found ← gets (λ s. S.get s (idem_pk key) "KEY")
    item ← key_error "Item" found
    id ← key_error "run_id" (text_of "run_id" item)
    run ← get_run client id
    pure (run, false)

  -- `id` is the fresh `uuid.uuid4()`; `queued` says whether the store has a queue.
  abbrev pub create_run :
      Client
      → Bool
      → Uuid
      → String
      → Dict
      → String
      → Budget
      → String
      → Aws S (Option RunRecord × Bool)
  create_run client queued id workflow payload key budget now = do
    let item = run_item id workflow payload key budget now
    sent_if S (is_json_dict payload) (modify (λ s. S.put (run_pk id) "META" item s))
    modify (λ s. S.put (run_pk id) "COUNTER" (("seq", number 0) ∷ []) s)
    modify (λ s. if queued then S.send id s else s)
    append_event S id run_started none (started_payload workflow payload budget)
    run ← key_error "run_id" (from_item client item)
    pure (some run, true)

  unfoldable pub submit_run :
      Client → Bool → Uuid → String → Dict → String → Budget → Aws S (Option RunRecord × Bool)
  unfolding existing_run append_event
  submit_run client queued id workflow payload key budget = do
    now ← gets S.now
    reserved ← put_new S (idem_pk key) "KEY" (("run_id", text id) ∷ [])
    if reserved
        then create_run client queued id workflow payload key budget now
        else existing_run client key
