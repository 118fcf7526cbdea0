-- ===== src/Context/Replay/Keys.antt =====
-- Step keys: the Nth call for a name gets the Nth key of that name, and no key is given twice.
use anchor_runtime.Base.{
  ℕ, ◌+◌, ◌≤◌, String, show, ◌≡◌, ◌≢◌, refl, ap, arith, lookup, lookup-insert, or_else, ◌==◌,
  if◌then◌else◌,
}
use anchor_runtime.Base.Decimal.Reading.{show_inj, no_mark-show, split_at_mark}
use anchor_runtime.Exec.{ok}
use anchor_runtime.Machine.{Machine}
use anchor_runtime.Context.Replay.{step_key, next_key}

step_key_inj : (a b : String) (m n : ℕ) → step_key a m ≡ step_key b n → (a ≡ b) × (m ≡ n)
step_key_inj a b m n e =
    let (same, digits) = split_at_mark a b (show m) (show n) (no_mark-show m) (no_mark-show n) e in
    (same, show_inj m n digits)

-- How many keys the attempt has given for the name.
abbrev pub ordinal : String → Machine → ℕ
ordinal name m = or_else (lookup name m.ctx.ordinals) 0

abbrev pub after_key : String → Machine → Machine
after_key name m = (next_key name m).1

-- The key is `name#N` with N one more than the keys given for the name so far; it differs from
-- every key given before, for this or another name; and only the count of this name goes up.
pub next_key_fresh :
    (name : String) (m : Machine)
    → ((next_key name m).0 ≡ ok (step_key name (ordinal name m + 1)))
      × ((a : String) (n : ℕ) → n ≤ ordinal a m → step_key a n ≢ step_key name (ordinal name m + 1))
      × ((a : String)
          → ordinal a (after_key name m) ≡ (if name == a then ordinal name m + 1 else ordinal a m))
unfolding next_key
next_key_fresh name m = (
  refl,
  λ a n le e.
      let (same, number) = step_key_inj a name n (ordinal name m + 1) e in
      omega (arith, ap (λ k. ordinal k m) same),
  λ a. ground (arith, lookup-insert name a (ordinal name m + 1) m.ctx.ordinals),
)
