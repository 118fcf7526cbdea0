-- ===== src/Dynamo/Attr.antt =====
-- `_enc` and `_dec`: JSON values as attributes of an item. DynamoDB has one type of numbers, so an
-- int and a `Decimal` of the same value are the same attribute.
pub mod RoundTrip
use anchor_runtime.Base.{ℕ, suc, ◌+◌, ◌-◌, ◌*◌, ◌/◌, ◌%◌, String, Bool, eqb, if◌then◌else◌}
use anchor_runtime.Value.{
  Value, null, bool, int, neg, float, str, arr, obj, opaque, Items, nil, cons, Dict, end, field,
}

-- `number` counts millionths; `minus n` is -(n + 1). A value of `unsupported` type is one that the
-- client library refuses to send.
mutual
  pub data Attr : Type 0 where
    nothing : Attr
    flag : Bool → Attr
    number : ℕ → Attr
    minus : ℕ → Attr
    text : String → Attr
    list : AttrItems → Attr
    map : AttrDict → Attr
    unsupported : String → Attr

  pub data AttrItems : Type 0 where
    no_items : AttrItems
    item : Attr → AttrItems → AttrItems

  pub data AttrDict : Type 0 where
    no_keys : AttrDict
    key : String → Attr → AttrDict → AttrDict

abbrev pub million : ℕ
million = 1000000

-- `_enc`
unfoldable mutual
  pub enc : Value → Attr
  enc null = nothing
  enc (bool b) = flag b
  enc (int n) = number (n * million)
  enc (neg n) = minus n
  enc (float n) = number n
  enc (str s) = text s
  enc (arr vs) = list (enc_items vs)
  enc (obj d) = map (enc_dict d)
  enc (opaque t) = unsupported t

  pub enc_items : Items → AttrItems
  enc_items nil = no_items
  enc_items (cons v vs) = item (enc v) (enc_items vs)

  pub enc_dict : Dict → AttrDict
  enc_dict end = no_keys
  enc_dict (field k v d) = key k (enc v) (enc_dict d)

-- `int(f) if f.is_integer() else f`
abbrev pub whole_or_float : ℕ → Value
whole_or_float f = if eqb (f % million) 0 then int (f / million) else float f

-- `_dec`; `nearest` is `float()` of a decimal, in millionths.
module _ (nearest : ℕ → ℕ) where
  unfoldable mutual
    pub dec : Attr → Value
    dec nothing = null
    dec (flag b) = bool b
    dec (number d) = whole_or_float (nearest d)
    dec (minus n) = neg (nearest ((n + 1) * million) / million - 1)
    dec (text s) = str s
    dec (list vs) = arr (dec_items vs)
    dec (map d) = obj (dec_dict d)
    dec (unsupported t) = opaque t

    pub dec_items : AttrItems → Items
    dec_items no_items = nil
    dec_items (item v vs) = cons (dec v) (dec_items vs)

    pub dec_dict : AttrDict → Dict
    dec_dict no_keys = end
    dec_dict (key k v d) = field k (dec v) (dec_dict d)
