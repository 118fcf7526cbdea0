-- ===== src/Dynamo/Attr/RoundTrip.antt =====
-- What a value has become when it is read back.
use anchor_runtime.Base.{
  ℕ, ◌+◌, ◌*◌, ◌<◌, ◌^◌, String, Option, none, some, ◌≡◌, refl, ap, ◌∙◌, arith,
}
use anchor_runtime.Value.{
  Value, null, bool, int, neg, float, str, arr, obj, opaque, Items, nil, cons, Dict, end, field,
  get?,
}
use anchor_runtime.Model.{
  Budget, as_count, as_amount, count_value, amount_value, budget_to_dict, budget_from_dict,
}
use anchor_runtime.Dynamo.Attr.{
  million, enc, enc_items, enc_dict, whole_or_float, dec, dec_items, dec_dict,
}

-- The value with every float that is a whole number turned into that integer.
mutual
  pub normal : Value → Value
  normal null = null
  normal (bool b) = bool b
  normal (int n) = int n
  normal (neg n) = neg n
  normal (float n) = whole_or_float n
  normal (str s) = str s
  normal (arr vs) = arr (normal_items vs)
  normal (obj d) = obj (normal_dict d)
  normal (opaque t) = opaque t

  pub normal_items : Items → Items
  normal_items nil = nil
  normal_items (cons v vs) = cons (normal v) (normal_items vs)

  pub normal_dict : Dict → Dict
  normal_dict end = end
  normal_dict (field k v d) = field k (normal v) (normal_dict d)

-- Fifteen significant digits, which a float of double precision keeps.
abbrev pub digits_kept : ℕ
digits_kept = 10 ^ 15

-- The numbers in the value have at most fifteen digits, six of them after the point.
unfoldable mutual
  pub IsSmall : Value → Type 0
  IsSmall null = Unit
  IsSmall (bool b) = Unit
  IsSmall (int n) = n * million < digits_kept
  IsSmall (neg n) = (n + 1) * million < digits_kept
  IsSmall (float n) = n < digits_kept
  IsSmall (str s) = Unit
  IsSmall (arr vs) = IsSmallItems vs
  IsSmall (obj d) = IsSmallDict d
  IsSmall (opaque t) = Unit

  pub IsSmallItems : Items → Type 0
  IsSmallItems nil = Unit
  IsSmallItems (cons v vs) = IsSmall v × IsSmallItems vs

  pub IsSmallDict : Dict → Type 0
  IsSmallDict end = Unit
  IsSmallDict (field k v d) = IsSmall v × IsSmallDict d

abbrev normal_option : Option Value → Option Value
normal_option none = none
normal_option (some v) = some (normal v)

get?-normal : (k : String) (d : Dict) → get? k (normal_dict d) ≡ normal_option (get? k d)
unfolding normal
get?-normal k end = refl
get?-normal k (field j v d) = ground (arith, get?-normal k d)

count_survives : (o : Option ℕ) → as_count (normal_option (count_value o)) ≡ o
unfolding normal
count_survives none = refl
count_survives (some n) = refl

whole_amount : (n : ℕ) → as_amount (some (whole_or_float n)) ≡ some n
whole_amount n = ground arith

amount_survives : (o : Option ℕ) → as_amount (normal_option (amount_value o)) ≡ o
unfolding normal
amount_survives none = refl
amount_survives (some n) = whole_amount n

module _ (b : Budget) where
  max_tokens_written : get? "max_tokens" (budget_to_dict b) ≡ count_value b.max_tokens
  unfolding budget_to_dict
  max_tokens_written = ground arith

  max_tokens_kept : as_count (get? "max_tokens" (normal_dict (budget_to_dict b))) ≡ b.max_tokens
  max_tokens_kept =
      rw (get?-normal "max_tokens" (budget_to_dict b))
        (ap (λ o. as_count (normal_option o)) max_tokens_written ∙ count_survives b.max_tokens)

  max_tool_calls_written : get? "max_tool_calls" (budget_to_dict b) ≡ count_value b.max_tool_calls
  unfolding budget_to_dict
  max_tool_calls_written = ground arith

  max_tool_calls_kept :
      as_count (get? "max_tool_calls" (normal_dict (budget_to_dict b))) ≡ b.max_tool_calls
  max_tool_calls_kept = rw (get?-normal "max_tool_calls" (budget_to_dict b)) (
      ap (λ o. as_count (normal_option o)) max_tool_calls_written ∙ count_survives b.max_tool_calls)

  max_model_calls_written :
      get? "max_model_calls" (budget_to_dict b) ≡ count_value b.max_model_calls
  unfolding budget_to_dict
  max_model_calls_written = ground arith

  max_model_calls_kept :
      as_count (get? "max_model_calls" (normal_dict (budget_to_dict b))) ≡ b.max_model_calls
  max_model_calls_kept = rw (get?-normal "max_model_calls" (budget_to_dict b)) (
      ap (λ o. as_count (normal_option o)) max_model_calls_written
      ∙ count_survives b.max_model_calls)

  max_wall_seconds_written :
      get? "max_wall_seconds" (budget_to_dict b) ≡ amount_value b.max_wall_seconds
  unfolding budget_to_dict
  max_wall_seconds_written = ground arith

  max_wall_seconds_kept :
      as_amount (get? "max_wall_seconds" (normal_dict (budget_to_dict b))) ≡ b.max_wall_seconds
  max_wall_seconds_kept = rw (get?-normal "max_wall_seconds" (budget_to_dict b)) (
      ap (λ o. as_amount (normal_option o)) max_wall_seconds_written
      ∙ amount_survives b.max_wall_seconds)

  max_cost_usd_written : get? "max_cost_usd" (budget_to_dict b) ≡ amount_value b.max_cost_usd
  unfolding budget_to_dict
  max_cost_usd_written = ground arith

  max_cost_usd_kept :
      as_amount (get? "max_cost_usd" (normal_dict (budget_to_dict b))) ≡ b.max_cost_usd
  max_cost_usd_kept =
      rw (get?-normal "max_cost_usd" (budget_to_dict b)) (
        ap (λ o. as_amount (normal_option o)) max_cost_usd_written ∙ amount_survives b.max_cost_usd)

whole_again : (n : ℕ) → whole_or_float (n * million) ≡ int n
whole_again n = ground arith

module _ (nearest : ℕ → ℕ) (exact : (n : ℕ) → n < digits_kept → nearest n ≡ n) where
  mutual
    unfolding enc dec normal IsSmall

    -- An attribute is read back as the value that was written, except that a float that is a whole
    -- number has become an integer, if the numbers have at most fifteen digits.
    pub dec-enc : (v : Value) → IsSmall v → dec nearest (enc v) ≡ normal v
    dec-enc null h = refl
    dec-enc (bool b) h = refl
    dec-enc (int n) h = rw (exact (n * million) h) (whole_again n)
    dec-enc (neg n) h = rw (exact ((n + 1) * million) h) (ap neg (omega arith))
    dec-enc (float n) h = rw (exact n h) refl
    dec-enc (str s) h = refl
    dec-enc (arr vs) h = ap arr (dec-enc_items vs h)
    dec-enc (obj d) h = ap obj (dec-enc_dict d h)
    dec-enc (opaque t) h = refl

    pub dec-enc_items :
        (vs : Items) → IsSmallItems vs → dec_items nearest (enc_items vs) ≡ normal_items vs
    dec-enc_items nil h = refl
    dec-enc_items (cons v vs) h = rw (dec-enc v h.0, dec-enc_items vs h.1) refl

    pub dec-enc_dict : (d : Dict) → IsSmallDict d → dec_dict nearest (enc_dict d) ≡ normal_dict d
    dec-enc_dict end h = refl
    dec-enc_dict (field k v d) h = rw (dec-enc v h.0, dec-enc_dict d h.1) refl

  -- An attribute is read back as the value that was written, except that a float that is a whole
  -- number has become an integer, if reading is exact up to fifteen digits and the numbers have no
  -- more.
  pub read_back : (v : Value) → IsSmall v → dec nearest (enc v) ≡ normal v
  read_back v h = dec-enc v h

  -- A budget survives, though its amounts may have become integers, if reading is exact up to fifteen
  -- digits and its numbers have no more.
  pub budget_survives :
      (b : Budget)
      → IsSmallDict (budget_to_dict b)
      → budget_from_dict (dec_dict nearest (enc_dict (budget_to_dict b))) ≡ b
  unfolding budget_from_dict
  budget_survives b h =
      rw
        (
          dec-enc_dict (budget_to_dict b) h,
          max_tokens_kept b,
          max_tool_calls_kept b,
          max_model_calls_kept b,
          max_wall_seconds_kept b,
          max_cost_usd_kept b,
        )
        refl
