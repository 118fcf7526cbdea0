-- ===== src/Refund/Covered.antt =====
-- No refund above what was captured, whatever the model asks for.
use anchor_runtime.Base.{
  ◌*◌, ◌&&◌, ltb, leb, arith, ℕ, zero, suc, String, Bool, true, false, Option, none, some, List, [],
  ◌∷◌, ◌++◌, ◌≡◌, refl, sym, subst, lookup, ◌==◌, if◌then◌else◌, Assoc, inl, inr,
}
use anchor_runtime.Value.{Value, bool, obj, Dict, end, field, get?}
use anchor_runtime.Model.{Uuid}
use anchor_runtime.Errors.{Exn}
use anchor_runtime.Exec.{
  Reply, ok, raised, crashed, pure, raise_if, or_raise, continue, ◌>>=◌, ◌>>◌,
}
use anchor_runtime.Postgres.Tables.{EffectRow, Db}
use anchor_runtime.Postgres.Effects.{record_side_effect}
use anchor_runtime.Postgres.Effects.Once.{record_side_effect_cases}
use anchor_runtime.Machine.{sleep, pause}
use anchor_runtime.Machine.Keeps.{Any, Calm, call-Keeps, bind-Keeps, or_raise-Keeps}
use anchor_runtime.Callable.{Arg}
use anchor_runtime.Context.Calls.{token_of}
use anchor_runtime.Refund.Tools.{
  Printer, Payment, argument, get_payment, as_millionths, is_refused, record_effect, token_value,
  payment, payment_or_raise, number_or_raise, lookup_payment, too_much, refund_payload, pay_back,
  refund_body, notify_body, value_of,
}

-- A known payment, and an amount of it that may be refunded.
abbrev covers : Reply (Option Payment) → Option ℕ → Bool
covers (ok (some p)) (some n) = ltb 0 n && leb n (p.captured_cents * 1000000)
covers _ _ = false

abbrev within : Option Value → Option Value → Bool
within (some id) (some amount) = covers (get_payment id) (as_millionths amount)
within _ _ = false

abbrev pub is_covered : String → Dict → Bool
is_covered kind payload =
    if kind == "refund"
    then within (get? "payment_id" payload) (get? "amount_cents" payload)
    else true

-- Every refund in the table is of a known payment, more than nothing, and no more than was captured.
abbrev pub AllCovered : List EffectRow → Type 0
AllCovered [] = Unit
AllCovered (e ∷ es) = (is_covered e.kind e.payload ≡ true) × AllCovered es

AllCovered-append :
    (es : List EffectRow) (e : EffectRow)
    → AllCovered es
    → is_covered e.kind e.payload ≡ true
    → AllCovered (es ++ e ∷ [])
AllCovered-append [] e h k = (k, tt)
AllCovered-append (x ∷ es) e h k = (h.0, AllCovered-append es e h.1 k)

record-AllCovered :
    (token run : Uuid) (kind : String) (payload : Dict)
    → is_covered kind payload ≡ true
    → (db : Db) → AllCovered db.effects
    → AllCovered (record_side_effect token run kind payload db).1.effects
record-AllCovered token run kind payload k db h =
    elim (record_side_effect_cases token run kind payload db) [
      | inl same ↦ subst (λ d. AllCovered d.effects) (sym same) h
      | inr (new, more) ↦
          subst (λ d. AllCovered d.effects) (sym more) (AllCovered-append db.effects _ h k)
    ]

effect-Calm :
    (token : Option Uuid) (run : Uuid) (kind : String) (payload : Dict)
    → is_covered kind payload ≡ true
    → Calm AllCovered (record_effect token run kind payload)
effect-Calm none run kind payload k = λ s h. h
effect-Calm (some token) run kind payload k =
    call-Keeps AllCovered Any (record_side_effect token run kind payload)
      (record-AllCovered token run kind payload k)

pause-Calm : (d : ℕ) → Calm AllCovered (pause d)
unfolding sleep
pause-Calm zero = λ s h. h
pause-Calm (suc d) = call-Keeps AllCovered Any _ (λ db h. h)

argument-Calm : (name : String) (args : Assoc Arg) → Calm AllCovered (argument name args)
argument-Calm name args = or_raise-Keeps AllCovered Any (value_of (lookup name args)) _

allowed_amount :
    (n : ℕ) (p : Payment)
    → is_refused n p ≡ false
    → (ltb 0 n && leb n (p.captured_cents * 1000000)) ≡ true
allowed_amount n p allowed = ground arith

module _ (py : Printer) (run : Uuid) (delay : ℕ) where
  refused-Calm :
      (b : Bool) (token : Option Uuid) (id amount : Value) (p : Payment)
      → (b ≡ false → is_covered "refund" (refund_payload py run delay id amount) ≡ true)
      → Calm AllCovered (do
        raise_if b (too_much py id amount p)
        created ← record_effect token run "refund" (refund_payload py run delay id amount)
        pause delay
        pure (
            obj (
              field "payment_id" id (
                field "amount_cents" amount
                  (field "token" (token_value token) (field "created" (bool created) end))))))
  refused-Calm true token id amount p k = λ s h. h
  refused-Calm false token id amount p k =
      bind-Keeps AllCovered Any
        (record_effect token run "refund" (refund_payload py run delay id amount)) _
        (effect-Calm token run "refund" _ (k refl))
        (λ created. bind-Keeps AllCovered Any (pause delay) _ (pause-Calm delay) (λ _ s h. h))

  pay_back-Calm :
      (token : Option Uuid) (id amount : Value) (p : Payment) (n : ℕ)
      → get_payment id ≡ ok (some p)
      → as_millionths amount ≡ some n
      → Calm AllCovered (pay_back py run delay token id amount p n)
  pay_back-Calm token id amount p n known number =
      refused-Calm (is_refused n p) token id amount p
        (λ allowed. rw (known, number) (allowed_amount n p allowed))

  number-Calm :
      (token : Option Uuid) (id amount : Value) (p : Payment) (o : Option ℕ) (e : Exn)
      → get_payment id ≡ ok (some p)
      → as_millionths amount ≡ o
      → Calm AllCovered (or_raise o e >>= pay_back py run delay token id amount p)
  number-Calm token id amount p none e known number = λ s h. h
  number-Calm token id amount p (some n) e known number =
      pay_back-Calm token id amount p n known number

  payment-Calm :
      (token : Option Uuid) (id amount : Value) (r : Reply (Option Payment))
      → get_payment id ≡ r
      → Calm AllCovered (λ s.
        continue
          (continue r (payment_or_raise py id) s).0
          (λ found. do n ← number_or_raise py amount; pay_back py run delay token id amount found n)
          (continue r (payment_or_raise py id) s).1)
  payment-Calm token id amount (ok none) known = λ s h. h
  payment-Calm token id amount (ok (some p)) known =
      number-Calm token id amount p (as_millionths amount) _ known refl
  payment-Calm token id amount (raised e) known = λ s h. h
  payment-Calm token id amount crashed known = λ s h. h

  pub refund-Calm : (args : Assoc Arg) → Calm AllCovered (refund_body py run delay args)
  refund-Calm args =
      bind-Keeps AllCovered Any (argument "payment_id" args) _ (argument-Calm "payment_id" args)
        (λ id.
          bind-Keeps AllCovered Any (argument "amount_cents" args) _
            (argument-Calm "amount_cents" args)
            (λ amount.
              payment-Calm (token_of (lookup "token" args)) id amount (get_payment id) refl))

  pub notify-Calm : (args : Assoc Arg) → Calm AllCovered (notify_body py run delay args)
  notify-Calm args =
      bind-Keeps AllCovered Any (argument "payment_id" args) _ (argument-Calm "payment_id" args)
        (λ id.
          bind-Keeps AllCovered Any (record_effect (token_of (lookup "token" args)) run "email" _) _
            (effect-Calm (token_of (lookup "token" args)) run "email" _ refl) (λ _ s h. h))

  found-Calm :
      (id : Value) (r : Reply (Option Payment))
      → Calm AllCovered (λ s. continue r (payment_or_raise py id) s)
  found-Calm id (ok o) = or_raise-Keeps AllCovered Any o _
  found-Calm id (raised e) = λ s h. h
  found-Calm id crashed = λ s h. h

  pub lookup-Calm : (args : Assoc Arg) → Calm AllCovered ((lookup_payment py).body args)
  lookup-Calm args =
      bind-Keeps AllCovered Any (argument "payment_id" args) _ (argument-Calm "payment_id" args)
        (λ id.
          bind-Keeps AllCovered Any (payment py id) _ (found-Calm id (get_payment id)) (λ _ s h. h))
