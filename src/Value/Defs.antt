-- ===== src/Value/Defs.antt =====
-- Python values, and dicts with string keys.
use anchor_runtime.Base.{
  ℕ, String, Bool, true, false, ◌&&◌, Option, none, some, ◌==◌, if◌then◌else◌, List, [], ◌∷◌,
}

mutual
  pub data Value : Type 0 where
    null : Value
    bool : Bool → Value
    int : ℕ → Value
    neg : ℕ → Value
    float : ℕ → Value
    str : String → Value
    arr : Items → Value
    obj : Dict → Value
    opaque : String → Value

  pub data Items : Type 0 where
    nil : Items
    cons : Value → Items → Items

  -- A dict in insertion order.
  pub data Dict : Type 0 where
    end : Dict
    field : String → Value → Dict → Dict

-- `d.get(k)`, with `none` for a key that is absent.
abbrev pub get? : String → Dict → Option Value
get? k end = none
get? k (field j v d) = if j == k then some v else get? k d

abbrev pub get_or : String → Value → Dict → Value
get_or k v d = elim (get? k d) [ none ↦ v | some w ↦ w ]

-- `d[k] = v`
abbrev pub set : String → Value → Dict → Dict
set k v end = field k v end
set k v (field j w d) = if j == k then field j v d else field j w (set k v d)

-- `{**d, **e}`
abbrev pub merge : Dict → Dict → Dict
merge d end = d
merge d (field k v e) = merge (set k v d) e

abbrev pub keys : Dict → List String
keys end = []
keys (field k v d) = k ∷ keys d

abbrev pub arr_of : List Value → Items
arr_of [] = nil
arr_of (v ∷ vs) = cons v (arr_of vs)

-- Whether `json.dumps` accepts the value.
unfoldable mutual
  pub is_json : Value → Bool
  is_json null = true
  is_json (bool b) = true
  is_json (int n) = true
  is_json (neg n) = true
  is_json (float n) = true
  is_json (str s) = true
  is_json (arr vs) = is_json_items vs
  is_json (obj d) = is_json_dict d
  is_json (opaque t) = false

  pub is_json_items : Items → Bool
  is_json_items nil = true
  is_json_items (cons v vs) = is_json v && is_json_items vs

  pub is_json_dict : Dict → Bool
  is_json_dict end = true
  is_json_dict (field k v d) = is_json v && is_json_dict d

-- `type(value).__name__`
pub type_name : Value → String
type_name null = "NoneType"
type_name (bool b) = "bool"
type_name (int n) = "int"
type_name (neg n) = "int"
type_name (float n) = "float"
type_name (str s) = "str"
type_name (arr vs) = "list"
type_name (obj d) = "dict"
type_name (opaque t) = t

-- `value is None`
abbrev pub is_null : Value → Bool
is_null null = true
is_null _ = false
