-- ===== src/Model/Types.antt =====
-- The enums and dataclasses of src/anchor/models.py.
use anchor_runtime.Base.{ℕ, ◌+◌, ◌*◌, String, Bool, true, false, Option, none, some}
use anchor_runtime.Value.{Value, null, bool, int, float, str, obj, Dict, end, field, get?}

-- Identifiers and tokens are compared and printed, never computed with.
abbrev pub Uuid : Type 0
Uuid = String

abbrev pub Time : Type 0
Time = ℕ

pub data RunStatus : Type 0 where
  pending running completed failed cancelled needs_review : RunStatus

unfoldable pub terminal : RunStatus → Bool
terminal pending = false
terminal running = false
terminal completed = true
terminal failed = true
terminal cancelled = true
terminal needs_review = true

-- `status.value`
unfoldable pub status_value : RunStatus → String
status_value pending = "PENDING"
status_value running = "RUNNING"
status_value completed = "COMPLETED"
status_value failed = "FAILED"
status_value cancelled = "CANCELLED"
status_value needs_review = "NEEDS_REVIEW"

pub data StepIdempotency : Type 0 where
  at_least_once at_most_once : StepIdempotency

unfoldable pub idempotency_value : StepIdempotency → String
idempotency_value at_least_once = "at_least_once"
idempotency_value at_most_once = "at_most_once"

-- How a typed field is read back from a JSON value.
abbrev pub as_count : Option Value → Option ℕ
as_count (some (int n)) = some n
as_count _ = none

abbrev pub as_amount : Option Value → Option ℕ
as_amount (some (float n)) = some n
as_amount (some (int n)) = some (n * 1000000)
as_amount _ = none

abbrev count_or_zero : Option Value → ℕ
count_or_zero (some (int n)) = n
count_or_zero _ = 0

abbrev amount_or_zero : Option Value → ℕ
amount_or_zero (some (float n)) = n
amount_or_zero (some (int n)) = n * 1000000
amount_or_zero _ = 0

pub record Budget : Type 0 where
  pub max_tokens : Option ℕ
  pub max_tool_calls : Option ℕ
  pub max_model_calls : Option ℕ
  pub max_wall_seconds : Option ℕ
  pub max_cost_usd : Option ℕ

-- One item of the comprehension: a `None` is left out.
abbrev pub opt_field : String → Option Value → Dict → Dict
opt_field k none d = d
opt_field k (some v) d = field k v d

abbrev pub count_value : Option ℕ → Option Value
count_value none = none
count_value (some n) = some (int n)

abbrev pub amount_value : Option ℕ → Option Value
amount_value none = none
amount_value (some n) = some (float n)

unfoldable pub budget_to_dict : Budget → Dict
budget_to_dict b = opt_field "max_tokens" (count_value b.max_tokens) (
    opt_field "max_tool_calls" (count_value b.max_tool_calls) (
      opt_field "max_model_calls" (count_value b.max_model_calls) (
        opt_field "max_wall_seconds" (amount_value b.max_wall_seconds)
          (opt_field "max_cost_usd" (amount_value b.max_cost_usd) end))))

-- Only the declared fields of `raw` are read.
unfoldable pub budget_from_dict : Dict → Budget
budget_from_dict raw = record {
  max_tokens = as_count (get? "max_tokens" raw);
  max_tool_calls = as_count (get? "max_tool_calls" raw);
  max_model_calls = as_count (get? "max_model_calls" raw);
  max_wall_seconds = as_amount (get? "max_wall_seconds" raw);
  max_cost_usd = as_amount (get? "max_cost_usd" raw);
}

pub record Usage : Type 0 where
  pub input_tokens : ℕ
  pub output_tokens : ℕ
  pub tool_calls : ℕ
  pub model_calls : ℕ
  pub cost_usd : ℕ

abbrev pub no_usage : Usage
no_usage = record {
  input_tokens = 0;
  output_tokens = 0;
  tool_calls = 0;
  model_calls = 0;
  cost_usd = 0;
}

abbrev pub total_tokens : Usage → ℕ
total_tokens u = u.input_tokens + u.output_tokens

unfoldable pub usage_to_dict : Usage → Dict
usage_to_dict u = field "input_tokens" (int u.input_tokens) (
    field "output_tokens" (int u.output_tokens) (
      field "tool_calls" (int u.tool_calls) (
        field "model_calls" (int u.model_calls)
          (field "cost_usd" (float u.cost_usd) (field "total_tokens" (int (total_tokens u)) end)))))

-- `total_tokens` is derived, so it is not read back.
unfoldable pub usage_from_dict : Dict → Usage
usage_from_dict raw = record {
  input_tokens = count_or_zero (get? "input_tokens" raw);
  output_tokens = count_or_zero (get? "output_tokens" raw);
  tool_calls = count_or_zero (get? "tool_calls" raw);
  model_calls = count_or_zero (get? "model_calls" raw);
  cost_usd = amount_or_zero (get? "cost_usd" raw);
}

pub record RunRecord : Type 0 where
  pub run_id : Uuid
  pub workflow : String
  pub input : Dict
  pub idempotency_key : String
  pub status : RunStatus
  pub event_seq : ℕ
  pub attempt : ℕ
  pub budget : Budget
  pub usage : Usage
  pub result : Value
  pub error : Option Dict
  pub cancel_requested : Bool
  pub created_at : Time
  pub updated_at : Time
  pub finished_at : Option Time

pub record Event : Type 0 where
  pub seq : ℕ
  pub type : String
  pub step_key : Option String
  pub payload : Dict
  pub created_at : Time

pub record Claim : Type 0 where
  pub run_id : Uuid
  pub attempts : ℕ

-- `x.isoformat()` is the parameter `iso`.
module _ (iso : Time → String) where
  abbrev opt_time : Option Time → Value
  opt_time none = null
  opt_time (some t) = str (iso t)

  abbrev opt_dict : Option Dict → Value
  opt_dict none = null
  opt_dict (some d) = obj d

  abbrev opt_str : Option String → Value
  opt_str none = null
  opt_str (some s) = str s

  unfoldable pub run_to_api : RunRecord → Dict
  run_to_api r = field "run_id" (str r.run_id) (
      field "workflow" (str r.workflow) (
        field "status" (str (status_value r.status)) (
          field "attempt" (int r.attempt) (
            field "idempotency_key" (str r.idempotency_key) (
              field "budget" (obj (budget_to_dict r.budget)) (
                field "usage" (obj (usage_to_dict r.usage)) (
                  field "result" r.result (
                    field "error" (opt_dict r.error) (
                      field "cancel_requested" (bool r.cancel_requested) (
                        field "created_at" (str (iso r.created_at)) (
                          field "updated_at" (str (iso r.updated_at))
                            (field "finished_at" (opt_time r.finished_at) end))))))))))))

  unfoldable pub event_to_api : Event → Dict
  event_to_api e = field "seq" (int e.seq) (
      field "type" (str e.type) (
        field "step_key" (opt_str e.step_key)
          (field "payload" (obj e.payload) (field "created_at" (str (iso e.created_at)) end))))
