-- ===== src/Postgres/Tables.antt =====
-- The tables, and the clauses of SQL that the store uses.
pub mod Find
use anchor_runtime.Base.{ℕ, String, Bool, Option, none, some, List, [], ◌∷◌, ◌==◌, if◌then◌else◌}
use anchor_runtime.Value.{Value, null, obj, get_or, Dict}
use anchor_runtime.Model.{
  Uuid, Time, RunStatus, RunRecord, Event, budget_from_dict, usage_from_dict,
}
use anchor_runtime.Errors.{Exn, other}
use anchor_runtime.Exec.{Exec}

-- A row of `runs`; `none` is NULL. `status` holds only the values of the enum.
pub record RunRow : Type 0 where
  pub run_id : Uuid
  pub workflow : String
  pub input : Dict
  pub idempotency_key : String
  pub status : RunStatus
  pub event_seq : ℕ
  pub attempt : ℕ
  pub budget : Dict
  pub usage : Dict
  pub result : Option Value
  pub error : Option Dict
  pub cancel_requested : Bool
  pub created_at : Time
  pub updated_at : Time
  pub finished_at : Option Time

-- A row of `events`: its run, and the other columns.
pub record EventRow : Type 0 where
  pub run_id : Uuid
  pub event : Event

pub record QueueRow : Type 0 where
  pub run_id : Uuid
  pub visible_at : Time
  pub locked_until : Option Time
  pub worker_id : Option String
  pub attempts : ℕ

pub record EffectRow : Type 0 where
  pub token : Uuid
  pub run_id : Uuid
  pub kind : String
  pub payload : Dict
  pub created_at : Time

pub record Db : Type 0 where
  pub now : Time
  pub runs : List RunRow
  pub events : List EventRow
  pub queue : List QueueRow
  pub effects : List EffectRow

abbrev pub Sql : Type 0 → Type 0
Sql A = Exec Db A

module _ {A : Type 0} where
  -- SELECT … WHERE … LIMIT 1
  unfoldable pub find? : (A → Bool) → List A → Option A
  find? p [] = none
  find? p (x ∷ xs) = if p x then some x else find? p xs

  -- UPDATE … SET … WHERE …
  unfoldable pub update : (A → Bool) → (A → A) → List A → List A
  update p f [] = []
  update p f (x ∷ xs) = (if p x then f x else x) ∷ update p f xs

unfoldable pub find_run : Uuid → List RunRow → Option RunRow
unfolding find?
find_run id = find? (λ r. r.run_id == id)

unfoldable pub find_key : String → List RunRow → Option RunRow
unfolding find?
find_key key = find? (λ r. r.idempotency_key == key)

unfoldable pub find_queued : Uuid → List QueueRow → Option QueueRow
unfolding find?
find_queued id = find? (λ q. q.run_id == id)

unfoldable pub update_run : Uuid → (RunRow → RunRow) → List RunRow → List RunRow
unfolding update
update_run id = update (λ r. r.run_id == id)

-- What `json.dumps` raises for a parameter that is to become jsonb; Python names the class in the
-- message.
abbrev pub not_serialisable : Exn
not_serialisable = other "TypeError" "Object is not JSON serializable"

abbrev pub unique_violation : Exn
unique_violation = other "UniqueViolationError" "duplicate key value violates unique constraint"

abbrev pub unwrap_result : Option Value → Value
unwrap_result none = null
unwrap_result (some (obj d)) = get_or "value" null d
unwrap_result (some v) = v

unfoldable pub to_run : RunRow → RunRecord
to_run row = record {
  run_id = row.run_id;
  workflow = row.workflow;
  input = row.input;
  idempotency_key = row.idempotency_key;
  status = row.status;
  event_seq = row.event_seq;
  attempt = row.attempt;
  budget = budget_from_dict row.budget;
  usage = usage_from_dict row.usage;
  result = unwrap_result row.result;
  error = row.error;
  cancel_requested = row.cancel_requested;
  created_at = row.created_at;
  updated_at = row.updated_at;
  finished_at = row.finished_at;
}
