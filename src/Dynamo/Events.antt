-- ===== src/Dynamo/Events.antt =====
-- `append_event` and `load_events` of `DynamoDBStore`. An append is three calls of the service.
pub mod Numbers
use anchor_runtime.Base.{
  ℕ, ◌+◌, ◌*◌, ◌/◌, String, Bool, Option, none, some, List, [], ◌∷◌, lookup, insert, or_else,
}
use anchor_runtime.Value.{Value, is_json_dict, obj, Dict, end}
use anchor_runtime.Model.{Uuid, Time, Event}
use anchor_runtime.Errors.{other}
use anchor_runtime.Exec.{Reply, ok, raised, Exec, pure, raise, gets, modify, or_raise, ◌>>=◌, ◌>>◌}
use anchor_runtime.Dynamo.Attr.{Attr, number, text, nothing, million, enc, dec}
use anchor_runtime.Dynamo.Service.{Item, Service, Aws, sent_if, update_item}
use anchor_runtime.Dynamo.Keys.{run_pk, event_sk}

-- `SET name = name + :one`
abbrev plus_one : String → Item → Option Attr → Option Item
plus_one name item (some (number n)) = some (insert name (number (n + million)) item)
plus_one name item _ = none

abbrev pub add_one : String → Item → Option Item
add_one name item = plus_one name item (lookup name item)

-- `int(…)` of a number attribute
abbrev pub as_int : Option Attr → Option ℕ
as_int (some (number n)) = some (n / million)
as_int _ = none

abbrev with_key : Option String → Item → Item
with_key none item = item
with_key (some k) item = insert "step_key" (text k) item

-- The item of an event.
abbrev pub event_item : ℕ → String → Option String → Dict → String → Item
event_item seq type key payload now = with_key key (
    ("seq", number (seq * million))
    ∷ ("type", text type)
    ∷ ("payload", enc (obj payload))
    ∷ ("created_at", text now)
    ∷ [])

module _ (S : Service) where
  -- The update of the counter.
  unfoldable pub claim_number : Uuid → Aws S ℕ
  claim_number id = do
    new ← update_item S (run_pk id) "COUNTER" (add_one "seq")
    or_raise (as_int (lookup "seq" new)) (other "KeyError" "'seq'")

  -- The copy of the number on the item of the run.
  abbrev pub mirrored : ℕ → String → Item → Item
  mirrored seq now item =
      insert "updated_at" (text now) (insert "event_seq" (number (seq * million)) item)

  unfoldable pub mirror_number : Uuid → ℕ → Aws S Item
  mirror_number id seq = do
    now ← gets S.now
    update_item S (run_pk id) "META" (λ item. some (mirrored seq now item))

  unfoldable pub put_event : Uuid → ℕ → String → Option String → Dict → Aws S Unit
  unfolding is_json_dict
  put_event id seq type key payload =
      sent_if S (is_json_dict payload) (
        modify
          (λ s. S.put (run_pk id) (event_sk seq) (event_item seq type key payload (S.now s)) s))

  unfoldable pub append_event : Uuid → String → Option String → Dict → Aws S ℕ
  unfolding claim_number mirror_number put_event
  append_event id type key payload = do
    seq ← claim_number id
    mirror_number id seq
    put_event id seq type key payload
    pure seq

abbrev pub as_text : Option Attr → Option String
as_text (some (text s)) = some s
as_text _ = none

abbrev as_dict : Value → Dict
as_dict (obj d) = d
as_dict _ = end

-- `_dec(item.get(name, {}))`
abbrev pub dec_or_empty : (ℕ → ℕ) → Option Attr → Dict
dec_or_empty nearest none = end
dec_or_empty nearest (some a) = as_dict (dec nearest a)

-- `nearest` is `float()` of a number, and `parse_time` is `fromisoformat`.
module _ (nearest : ℕ → ℕ) (parse_time : String → Option Time) where
  abbrev event_with : Item → Option ℕ → Option String → Option String → Option Event
  event_with item (some seq) (some type) (some at) = elim (parse_time at) [
    | none ↦ none
    | some t ↦ some (record {
      seq = seq;
      type = type;
      step_key = as_text (lookup "step_key" item);
      payload = dec_or_empty nearest (lookup "payload" item);
      created_at = t;
    })
  ]
  event_with item _ _ _ = none

  -- `none` where a subscript or `fromisoformat` raises.
  unfoldable pub event_of : Item → Option Event
  event_of item =
      event_with item (as_int (lookup "seq" item)) (as_text (lookup "type" item))
        (as_text (lookup "created_at" item))

  abbrev cons_event : Option Event → Option (List Event) → Option (List Event)
  cons_event (some e) (some es) = some (e ∷ es)
  cons_event _ _ = none

  abbrev events_of : List (String × Item) → Option (List Event)
  events_of [] = some []
  events_of ((k, item) ∷ found) = cons_event (event_of item) (events_of found)

  -- The first page of the query; the source asks for no other.
  unfoldable pub load_events : (S : Service) → Uuid → Aws S (List Event)
  unfolding event_of
  load_events S id = do
    found ← gets (λ s. S.query s (run_pk id) "EVENT#")
    or_raise (events_of found) (other "KeyError" "an attribute of an event item")
