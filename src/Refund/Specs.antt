-- ===== src/Refund/Specs.antt =====
-- The tools of src/anchor/examples/refund_agent.py as the decorator `tool` registers them.
use anchor_runtime.Base.{ℕ, String, none, some}
use anchor_runtime.Value.{Value, str, arr, obj, Items, nil, cons, Dict, end, field}
use anchor_runtime.Model.{Uuid, at_least_once, at_most_once}
use anchor_runtime.Errors.{Host}
use anchor_runtime.Registry.{ToolSpec}
use anchor_runtime.Refund.Tools.{
  Printer, lookup_payment, issue_refund, notify_customer, refund_landed,
}

abbrev typed : String → Value
typed type = obj (field "type" (str type) end)

abbrev schema : Dict → Items → Dict
schema properties required =
    field "type" (str "object")
      (field "properties" (obj properties) (field "required" (arr required) end))

module _ (py : Printer) (host : Host) (run_id : Uuid) (delay : ℕ) where
  abbrev pub lookup_tool : ToolSpec
  lookup_tool = record {
    ident = 1;
    name = "lookup_payment";
    fn = lookup_payment py;
    description = "Fetch a payment by id. Read-only.";
    input_schema = schema (field "payment_id" (typed "string") end) (cons (str "payment_id") nil);
    idempotency = at_least_once;
    verify = none;
  }

  abbrev pub refund_tool : ToolSpec
  refund_tool = record {
    ident = 2;
    name = "issue_refund";
    fn = issue_refund py run_id delay;
    description = "Refund a captured payment. Moves money.";
    input_schema =
        schema (field "payment_id" (typed "string") (field "amount_cents" (typed "integer") end))
          (cons (str "payment_id") (cons (str "amount_cents") nil));
    idempotency = at_most_once;
    verify = some (refund_landed host);
  }

  abbrev pub notify_tool : ToolSpec
  notify_tool = record {
    ident = 3;
    name = "notify_customer";
    fn = notify_customer py run_id delay;
    description = "Email the customer about their refund. Cannot be deduplicated.";
    input_schema =
        schema (field "payment_id" (typed "string") (field "message" (typed "string") end))
          (cons (str "payment_id") nil);
    idempotency = at_most_once;
    verify = none;
  }
