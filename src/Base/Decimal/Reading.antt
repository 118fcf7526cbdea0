-- ===== src/Base/Decimal/Reading.antt =====
-- `show` is one to one, and its digits are never the mark `#`.
use Prim.Native.Nat.{ℕ, zero, suc, ◌+◌, ◌-◌, ◌*◌, ◌/◌, ◌%◌, ◌<◌}
use Prim.Native.Char.{Char, code}
use Prim.Native.String.{String, ◌++◌}
use mathlib.Core.Path.{◌≡◌, refl, sym, ap, ap₂, ◌∙◌}
use mathlib.Core.Bool.{Bool, true, false, ◌||◌}
use native.Mathlib.Omega.{arith}
use text.Mathlib.TextLemmas.{
  nil-append, cons-append, tail-eq_of_cons-eq, head-eq_of_cons-eq, append_cancel_left,
}
use anchor_runtime.Base.Tests.{eqb, ltb, Bool-cases}
use mathlib.Core.Logic.{inl, inr}
use anchor_runtime.Base.Decimal.{digit, digits, show}

-- The number that a text of digits stands for, read after `acc`.
value : ℕ → String → ℕ
value acc String.[] = acc
value acc (String.◌∷◌ c s) = value (acc * 10 + (code c - 48)) s

value-append : (acc : ℕ) (s t : String) → value acc (s ++ t) ≡ value (value acc s) t
unfolding value
value-append acc String.[] t = ap (value acc) (nil-append t)
value-append acc (String.◌∷◌ c s) t =
    ap (value acc) (cons-append c s t) ∙ value-append (acc * 10 + (code c - 48)) s t

value-digit : (acc d : ℕ) → d < 10 → value acc (digit d) ≡ acc * 10 + d
unfolding value digit
value-digit acc zero h = omega arith
value-digit acc (suc zero) h = omega arith
value-digit acc (suc (suc zero)) h = omega arith
value-digit acc (suc (suc (suc zero))) h = omega arith
value-digit acc (suc (suc (suc (suc zero)))) h = omega arith
value-digit acc (suc (suc (suc (suc (suc zero))))) h = omega arith
value-digit acc (suc (suc (suc (suc (suc (suc zero)))))) h = omega arith
value-digit acc (suc (suc (suc (suc (suc (suc (suc zero))))))) h = omega arith
value-digit acc (suc (suc (suc (suc (suc (suc (suc (suc zero)))))))) h = omega arith
value-digit acc (suc (suc (suc (suc (suc (suc (suc (suc (suc zero))))))))) h = omega arith
value-digit acc (suc (suc (suc (suc (suc (suc (suc (suc (suc (suc d)))))))))) h =
    absurd (omega arith)

value-digits : (fuel n : ℕ) → n < fuel → value 0 (digits fuel n) ≡ n
unfolding digits
value-digits zero n h = elim h [ ]
value-digits (suc fuel) n h = elim (Bool-cases (ltb n 10)) [
  | inl one ↦ rw one (value-digit 0 n (ground arith) ∙ omega arith)
  | inr more ↦
      rw
        (
          more,
          value-append 0 (digits fuel (n / 10)) (digit (n % 10)),
          value-digits fuel (n / 10) (ground arith),
          value-digit (n / 10) (n % 10) (omega arith),
        )
        (omega arith)
]

value-show : (n : ℕ) → value 0 (show n) ≡ n
unfolding show
value-show n = value-digits (suc n) n (omega arith)

-- Two numbers that print alike are equal.
pub show_inj : (m n : ℕ) → show m ≡ show n → m ≡ n
show_inj m n h = sym (value-show m) ∙ (ap (value 0) h ∙ value-show n)

-- Whether a text holds the mark `#`.
pub has_mark : String → Bool
has_mark String.[] = false
has_mark (String.◌∷◌ c s) = eqb (code c) 35 || has_mark s

has_mark-append : (s t : String) → has_mark (s ++ t) ≡ (has_mark s || has_mark t)
unfolding has_mark
has_mark-append String.[] t = ap has_mark (nil-append t)
has_mark-append (String.◌∷◌ c s) t =
    ap has_mark (cons-append c s t)
    ∙ (ap (λ b. eqb (code c) 35 || b) (has_mark-append s t) ∙ assoc (eqb (code c) 35))
  where
    assoc : (b : Bool) → (b || (has_mark s || has_mark t)) ≡ ((b || has_mark s) || has_mark t)
    assoc true = refl
    assoc false = refl

no_mark-digit : (d : ℕ) → has_mark (digit d) ≡ false
unfolding has_mark digit
no_mark-digit zero = refl
no_mark-digit (suc zero) = refl
no_mark-digit (suc (suc zero)) = refl
no_mark-digit (suc (suc (suc zero))) = refl
no_mark-digit (suc (suc (suc (suc zero)))) = refl
no_mark-digit (suc (suc (suc (suc (suc zero))))) = refl
no_mark-digit (suc (suc (suc (suc (suc (suc zero)))))) = refl
no_mark-digit (suc (suc (suc (suc (suc (suc (suc zero))))))) = refl
no_mark-digit (suc (suc (suc (suc (suc (suc (suc (suc zero)))))))) = refl
no_mark-digit (suc (suc (suc (suc (suc (suc (suc (suc (suc d))))))))) = refl

no_mark-digits : (fuel n : ℕ) → has_mark (digits fuel n) ≡ false
unfolding digits
no_mark-digits zero n = unfold has_mark in refl
no_mark-digits (suc fuel) n = elim (Bool-cases (ltb n 10)) [
  | inl one ↦ rw one (no_mark-digit n)
  | inr more ↦ rw (
    more,
    has_mark-append (digits fuel (n / 10)) (digit (n % 10)),
    no_mark-digits fuel (n / 10),
    no_mark-digit (n % 10),
  )
]

pub no_mark-show : (n : ℕ) → has_mark (show n) ≡ false
unfolding show
no_mark-show n = no_mark-digits (suc n) n

marked : (s t : String) → has_mark (s ++ ("#" ++ t)) ≡ true
marked s t =
    rw (has_mark-append s ("#" ++ t), has_mark-append "#" t) (unfold has_mark in right (has_mark s))
  where
    right : (b : Bool) → (b || true) ≡ true
    right true = refl
    right false = refl

mark-cons : (s : String) → "#" ++ s ≡ String.◌∷◌ "#" s
mark-cons s = cons-append "#" String.[] s ∙ ap (String.◌∷◌ "#") (nil-append s)

-- A cut at the head of one text lies at the head of the other: its tail has no mark.
no_cut_inside :
    (c : Char) (b s t : String) → has_mark s ≡ false → "#" ++ s ≡ (String.◌∷◌ c b) ++ ("#" ++ t) → ⊥
no_cut_inside c b s t h e = absurd (cc (h, marked b t, ap has_mark tails))
  where
    tails : s ≡ b ++ ("#" ++ t)
    tails = tail-eq_of_cons-eq (sym (mark-cons s) ∙ (e ∙ cons-append c b ("#" ++ t)))

-- A text is cut at its last mark in one way.
pub split_at_mark :
    (a b s t : String)
    → has_mark s ≡ false
    → has_mark t ≡ false
    → a ++ ("#" ++ s) ≡ b ++ ("#" ++ t)
    → (a ≡ b) × (s ≡ t)
split_at_mark String.[] String.[] s t hs ht e =
    (refl, append_cancel_left "#" s t (sym (nil-append ("#" ++ s)) ∙ (e ∙ nil-append ("#" ++ t))))
split_at_mark String.[] (String.◌∷◌ c b) s t hs ht e =
    absurd (no_cut_inside c b s t hs (sym (nil-append ("#" ++ s)) ∙ e))
split_at_mark (String.◌∷◌ c a) String.[] s t hs ht e =
    absurd (no_cut_inside c a t s ht (sym (nil-append ("#" ++ t)) ∙ sym e))
split_at_mark (String.◌∷◌ c a) (String.◌∷◌ d b) s t hs ht e =
    let both : String.◌∷◌ c (a ++ ("#" ++ s)) ≡ String.◌∷◌ d (b ++ ("#" ++ t)) =
      sym (cons-append c a ("#" ++ s)) ∙ (e ∙ cons-append d b ("#" ++ t)) in
    let (same, rest) = split_at_mark a b s t hs ht (tail-eq_of_cons-eq both) in
    (ap₂ String.◌∷◌ (head-eq_of_cons-eq both) same, rest)
