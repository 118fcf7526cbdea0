-- ===== src/Refund/Tools.antt =====
-- The tools of src/anchor/examples/refund_agent.py.
use anchor_runtime.Base.{
  ℕ, ◌*◌, String, ◌<>◌, show, Bool, true, false, ◌||◌, Option, none, some, [], ◌∷◌, Assoc, lookup,
  leb, ltb,
}
use anchor_runtime.Value.{
  Value, null, bool, int, neg, float, str, arr, obj, Dict, end, field, type_name,
}
use anchor_runtime.Model.{Uuid}
use anchor_runtime.Errors.{Exn, Host, other}
use anchor_runtime.Exec.{Reply, ok, raised, pure, raise, raise_if, or_raise, ◌>>=◌, ◌>>◌}
use anchor_runtime.Postgres.Effects.{record_side_effect, find_side_effect}
use anchor_runtime.Machine.{M, call, pause}
use anchor_runtime.Callable.{Arg, value_arg, Callable}
use anchor_runtime.Context.Calls.{token_of}

-- What Python prints for a value: `repr`, `str`, and `json.dumps` with `default=str`.
pub record Printer : Type 0 where
  pub repr : Value → String
  pub text : Value → String
  pub dumps : Value → String

pub record Payment : Type 0 where
  pub payment_id : String
  pub captured_cents : ℕ
  pub currency : String
  pub status : String

-- PAYMENTS
abbrev pub payments : Assoc Payment
payments =
    (
      "pay_001",
      record {
        payment_id = "pay_001";
        captured_cents = 4999;
        currency = "CAD";
        status = "captured";
      },
    )
    ∷ (
      "pay_002",
      record {
        payment_id = "pay_002";
        captured_cents = 129900;
        currency = "CAD";
        status = "captured";
      },
    )
    ∷ (
      "pay_003",
      record { payment_id = "pay_003"; captured_cents = 0; currency = "CAD"; status = "voided" },
    )
    ∷ []

abbrev pub payment_dict : Payment → Dict
payment_dict p = field "payment_id" (str p.payment_id) (
    field "captured_cents" (int p.captured_cents)
      (field "currency" (str p.currency) (field "status" (str p.status) end)))

abbrev pub value_of : Option Arg → Option Value
value_of (some (value_arg v)) = some v
value_of _ = none

-- A parameter without a default.
abbrev pub argument : String → Assoc Arg → M Value
argument name args =
    or_raise (value_of (lookup name args))
      (other "TypeError" ("missing a required argument: '" <> name <> "'"))

-- `PAYMENTS.get(payment_id)`
abbrev pub get_payment : Value → Reply (Option Payment)
get_payment (str s) = ok (lookup s payments)
get_payment (arr vs) = raised (other "TypeError" "unhashable type: 'list'")
get_payment (obj d) = raised (other "TypeError" "unhashable type: 'dict'")
get_payment _ = ok none

-- A number in millionths, a negative one as 0, since both are refused.
abbrev pub as_millionths : Value → Option ℕ
as_millionths (int n) = some (n * 1000000)
as_millionths (neg n) = some 0
as_millionths (float n) = some n
as_millionths (bool true) = some 1000000
as_millionths (bool false) = some 0
as_millionths _ = none

-- `amount_cents <= 0 or amount_cents > payment["captured_cents"]`
abbrev pub is_refused : ℕ → Payment → Bool
is_refused amount p = leb amount 0 || ltb (p.captured_cents * 1000000) amount

-- A side effect under the token of the step, whose column is NOT NULL.
abbrev pub record_effect : Option Uuid → Uuid → String → Dict → M Bool
record_effect none run_id kind payload = raise (other "NotNullViolation" "token")
record_effect (some token) run_id kind payload = call (record_side_effect token run_id kind payload)

abbrev pub token_value : Option Uuid → Value
token_value none = str "None"
token_value (some t) = str t

module _ (py : Printer) where
  abbrev pub payment_or_raise : Value → Option Payment → M Payment
  payment_or_raise id found =
      or_raise found (other "LookupError" ("unknown payment " <> py.repr id))

  abbrev pub payment : Value → M Payment
  payment id = do found ← (λ m. (get_payment id, m)); payment_or_raise id found

  -- `lookup_payment`
  abbrev pub lookup_payment : Callable
  lookup_payment = record {
    params = "payment_id" ∷ [];
    var_keyword = false;
    body = λ args. (do
      id ← argument "payment_id" args
      found ← payment id
      pure (obj (payment_dict found)));
  }

  abbrev pub number_or_raise : Value → M ℕ
  number_or_raise v = or_raise (as_millionths v) (
      other "TypeError"
        ("'<=' not supported between instances of '" <> type_name v <> "' and 'int'"))

  abbrev pub too_much : Value → Value → Payment → Exn
  too_much id amount p = other "ValueError" (
      "refund of "
      <> py.text amount
      <> " exceeds captured "
      <> show p.captured_cents
      <> " on "
      <> py.text id)

  -- `ctx.run_id` and the delay that the environment sets.
  module _ (run_id : Uuid) (delay : ℕ) where
    abbrev pub refund_payload : Value → Value → Dict
    refund_payload id amount = field "payment_id" id (field "amount_cents" amount end)

    abbrev pub pay_back : Option Uuid → Value → Value → Payment → ℕ → M Value
    pay_back token id amount p n = do
      raise_if (is_refused n p) (too_much id amount p)
      created ← record_effect token run_id "refund" (refund_payload id amount)
      pause delay
      pure (
          obj (
            field "payment_id" id (
              field "amount_cents" amount
                (field "token" (token_value token) (field "created" (bool created) end)))))

    -- `issue_refund`
    abbrev pub refund_body : Assoc Arg → M Value
    refund_body args = do
      id ← argument "payment_id" args
      amount ← argument "amount_cents" args
      found ← payment id
      n ← number_or_raise amount
      pay_back (token_of (lookup "token" args)) id amount found n

    abbrev pub issue_refund : Callable
    issue_refund = record {
      params = "ctx" ∷ "token" ∷ "payment_id" ∷ "amount_cents" ∷ [];
      var_keyword = false;
      body = refund_body;
    }

    -- `message: str = ""`
    abbrev pub message_of : Option Value → Value
    message_of none = str ""
    message_of (some v) = v

    -- `notify_customer`
    abbrev pub notify_body : Assoc Arg → M Value
    notify_body args = do
      id ← argument "payment_id" args
      record_effect (token_of (lookup "token" args)) run_id "email" (
          field "payment_id" id
            (field "message" (message_of (value_of (lookup "message" args))) end))
      pure (obj (field "sent" (bool true) (field "payment_id" id end)))

    abbrev pub notify_customer : Callable
    notify_customer = record {
      params = "ctx" ∷ "token" ∷ "payment_id" ∷ "message" ∷ [];
      var_keyword = false;
      body = notify_body;
    }

-- `_refund_landed`
abbrev pub found_value : Option Dict → Value
found_value none = null
found_value (some d) = obj d

abbrev pub landed_body : Host → Option Uuid → M Value
landed_body host none = pure null
landed_body host (some token) = do
  found ← call (find_side_effect host.iso token)
  pure (found_value found)

abbrev pub refund_landed : Host → Callable
refund_landed host = record {
  params = "ctx" ∷ "token" ∷ "_" ∷ [];
  var_keyword = true;
  body = λ args. landed_body host (token_of (lookup "token" args));
}
