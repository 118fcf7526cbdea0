-- ===== src/Dynamo/RunItems.antt =====
-- The item of a run: how `submit_run` of src/anchor/store/dynamo.py writes it, and `_from_item`.
use anchor_runtime.Base.{
  ℕ, String, Bool, false, Option, none, some, [], ◌∷◌, lookup, or_else, ◌==◌, if◌then◌else◌,
}
use anchor_runtime.Value.{Value, null, str, obj, Dict, end, field}
use anchor_runtime.Model.{
  Uuid, Time, RunStatus, pending, running, completed, failed, cancelled, needs_review, status_value,
  Budget, budget_to_dict, budget_from_dict, usage_from_dict, RunRecord,
}
use anchor_runtime.Dynamo.Attr.{Attr, flag, number, text, enc, dec}
use anchor_runtime.Dynamo.Service.{Item}
use anchor_runtime.Dynamo.Events.{as_int, as_text, dec_or_empty}

-- `RunStatus(value)`
unfoldable pub status_from : String → Option RunStatus
unfolding status_value
status_from s =
    if s == status_value pending
    then some pending
    else if s == status_value running
    then some running
    else if s == status_value completed
    then some completed
    else if s == status_value failed
    then some failed
    else if s == status_value cancelled
    then some cancelled
    else if s == status_value needs_review
    then some needs_review
    else none

abbrev pub then_try : {A B : Type 0} → Option A → (A → Option B) → Option B
then_try none f = none
then_try (some a) f = f a

abbrev int_or_zero : Option Attr → ℕ
int_or_zero a = or_else (as_int a) 0

abbrev pub is_true : Option Attr → Bool
is_true (some (flag b)) = b
is_true _ = false

abbrev dec_or_none : (ℕ → ℕ) → Option Attr → Value
dec_or_none nearest none = null
dec_or_none nearest (some a) = dec nearest a

abbrev as_error : Value → Option Dict
as_error (obj d) = some d
as_error _ = none

abbrev pub text_of : String → Item → Option String
text_of name item = as_text (lookup name item)

-- What Python's `datetime` and `float` do with the strings and numbers of an item.
pub record Client : Type 0 where
  pub nearest : ℕ → ℕ
  pub parse_time : String → Option Time

-- `_utc(item["finished_at"]) if item.get("finished_at") else None`
abbrev finished_of : Client → Option String → Option (Option Time)
finished_of client none = some none
finished_of client (some s) = then_try (client.parse_time s) (λ t. some (some t))

-- `_from_item`; `none` where a subscript, `RunStatus` or `fromisoformat` raises.
unfoldable pub from_item : Client → Item → Option RunRecord
from_item client item = then_try (text_of "run_id" item) (λ id.
    then_try (text_of "workflow" item) (λ workflow.
      then_try (text_of "idempotency_key" item) (λ key.
        then_try (then_try (text_of "status" item) status_from) (λ status.
          then_try (then_try (text_of "created_at" item) client.parse_time) (λ created.
            then_try (then_try (text_of "updated_at" item) client.parse_time) (λ updated.
              then_try (finished_of client (text_of "finished_at" item)) (λ finished. some (record {
                run_id = id;
                workflow = workflow;
                input = dec_or_empty client.nearest (lookup "input" item);
                idempotency_key = key;
                status = status;
                event_seq = int_or_zero (lookup "event_seq" item);
                attempt = int_or_zero (lookup "attempt" item);
                budget = budget_from_dict (dec_or_empty client.nearest (lookup "budget" item));
                usage = usage_from_dict (dec_or_empty client.nearest (lookup "usage" item));
                result = dec_or_none client.nearest (lookup "result" item);
                error = as_error (dec_or_none client.nearest (lookup "error" item));
                cancel_requested = is_true (lookup "cancel_requested" item);
                created_at = created;
                updated_at = updated;
                finished_at = finished;
              }))))))))

-- The item that `submit_run` writes.
abbrev pub run_item : Uuid → String → Dict → String → Budget → String → Item
run_item id workflow payload key budget now =
    ("run_id", text id)
    ∷ ("workflow", text workflow)
    ∷ ("input", enc (obj payload))
    ∷ ("idempotency_key", text key)
    ∷ ("status", text (status_value pending))
    ∷ ("event_seq", number 0)
    ∷ ("attempt", number 0)
    ∷ ("budget", enc (obj (budget_to_dict budget)))
    ∷ ("usage", enc (obj end))
    ∷ ("cancel_requested", flag false)
    ∷ ("created_at", text now)
    ∷ ("updated_at", text now)
    ∷ []

abbrev pub started_payload : String → Dict → Budget → Dict
started_payload workflow payload budget =
    field "workflow" (str workflow)
      (field "input" (obj payload) (field "budget" (obj (budget_to_dict budget)) end))
