-- ===== src/Dynamo/Keys.antt =====
-- The keys of the items.
use anchor_runtime.Base.{
  ℕ, zero, suc, ◌/◌, ◌%◌, ◌^◌, String, ◌<>◌, false, show, ltb, ◌≡◌, refl, ap, ◌==◌, eq_iff,
  if◌then◌else◌, Bool-cases, inl, inr,
}
use text.Mathlib.Text.{starts_with}
use text.Mathlib.TextPositions.{starts_with-append}
use anchor_runtime.Model.{Uuid}

abbrev pub run_pk : Uuid → String
run_pk id = "RUN#" <> id

abbrev pub idem_pk : String → String
idem_pk key = "IDEM#" <> key

abbrev pub effect_pk : Uuid → String
effect_pk token = "EFFECT#" <> token

abbrev pub lease_sk : String → String
lease_sk worker = "LEASE#" <> worker

-- The last `width` digits of `n`, with zeros in front.
pub padded : ℕ → ℕ → String
padded zero n = ""
padded (suc width) n = padded width (n / 10) <> show (n % 10)

-- `f"EVENT#{seq:020d}"`
unfoldable pub event_sk : ℕ → String
unfolding padded show
event_sk seq = "EVENT#" <> (if ltb seq (10 ^ 20) then padded 20 seq else show seq)

event_sk_example : event_sk 407 ≡ "EVENT#00000000000000000407"
unfolding event_sk
event_sk_example = refl

-- A key with a prefix is no key without it.
pub other_prefix :
    (prefix rest k : String) → starts_with k prefix ≡ false → ((prefix <> rest) == k) ≡ false
other_prefix prefix rest k h = elim (Bool-cases ((prefix <> rest) == k)) [
  | inr differs ↦ differs
  | inl same ↦ cc (
    starts_with-append prefix rest,
    ap (λ s. starts_with s prefix) ((eq_iff (prefix <> rest) k).0 same),
    h,
  )
]
