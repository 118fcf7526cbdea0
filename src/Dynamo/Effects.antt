-- ===== src/Dynamo/Effects.antt =====
-- The side effects of `DynamoDBStore`, each an item of its own under its token.
use anchor_runtime.Base.{
  ℕ, String, Bool, false, ◌&&◌, Option, none, some, [], ◌∷◌, lookup, keep, length, ◌==◌,
}
use anchor_runtime.Value.{Value, is_json_dict, null, str, obj, Dict, end, field}
use anchor_runtime.Model.{Uuid}
use anchor_runtime.Exec.{gets, ◌>>=◌}
use anchor_runtime.Dynamo.Attr.{Attr, text, enc}
use anchor_runtime.Dynamo.Service.{Item, Service, Aws, sent_if, put_new}
use anchor_runtime.Dynamo.Keys.{effect_pk}
use anchor_runtime.Dynamo.Events.{dec_or_empty}

abbrev pub effect_item : Uuid → Uuid → String → Dict → String → Item
effect_item token run_id kind payload now =
    ("token", text token)
    ∷ ("run_id", text run_id)
    ∷ ("kind", text kind)
    ∷ ("payload", enc (obj payload))
    ∷ ("created_at", text now)
    ∷ []

abbrev text_value : Option Attr → Value
text_value (some (text s)) = str s
text_value _ = null

abbrev describe : (ℕ → ℕ) → Option Item → Option Dict
describe nearest none = none
describe nearest (some item) = some (
    field "token" (text_value (lookup "token" item)) (
      field "run_id" (text_value (lookup "run_id" item)) (
        field "kind" (text_value (lookup "kind" item)) (
          field "payload" (obj (dec_or_empty nearest (lookup "payload" item)))
            (field "created_at" (text_value (lookup "created_at" item)) end)))))

abbrev is_text : String → Option Attr → Bool
is_text s (some (text t)) = t == s
is_text s _ = false

module _ (S : Service) where
  -- A conditional put: true if this call created the effect.
  unfoldable pub record_side_effect : Uuid → Uuid → String → Dict → Aws S Bool
  unfolding is_json_dict
  record_side_effect token run_id kind payload = do
    now ← gets S.now
    sent_if S (is_json_dict payload)
        (put_new S (effect_pk token) "DATA" (effect_item token run_id kind payload now))

  -- The source subscripts the attributes, which every effect has.
  unfoldable pub find_side_effect : (ℕ → ℕ) → Uuid → Aws S (Option Dict)
  find_side_effect nearest token = gets (λ s. describe nearest (S.get s (effect_pk token) "DATA"))

  -- `scan` with a filter, of which only the first page is counted.
  unfoldable pub count_side_effects : Uuid → String → Aws S ℕ
  count_side_effects run_id kind = gets (λ s. length (
      keep
        (λ f.
          is_text run_id (lookup "run_id" f.1)
          && (is_text kind (lookup "kind" f.1) && f.0.1 == "DATA"))
        (S.scan s)))
