-- ===== src/Exec.antt =====
-- How a coroutine of the runtime ends, and the actions that end so: `Exec S A` acts on a state `S`.
-- What was written before an exception, or before the death of the process, stays written.
pub mod Laws
use anchor_runtime.Base.{Bool, if◌then◌else◌, Option, none, some}
use anchor_runtime.Errors.{Exn}

-- `crashed`: the process died (SIGKILL, OOM), which no handler sees.
pub data Reply (A : Type 0) : Type 0 where
  ok : A → Reply A
  raised : Exn → Reply A
  crashed : Reply A

abbrev pub Exec : Type 0 → Type 0 → Type 0
Exec S A = S → Reply A × S

module _ {S A : Type 0} where
  abbrev pub pure : A → Exec S A
  pure a s = (ok a, s)

  abbrev pub raise : Exn → Exec S A
  raise e s = (raised e, s)

  abbrev pub gets : (S → A) → Exec S A
  gets f s = (ok (f s), s)

  abbrev pub or_raise : Option A → Exn → Exec S A
  or_raise none e = raise e
  or_raise (some a) e = pure a

abbrev pub modify : {S : Type 0} → (S → S) → Exec S Unit
modify f s = (ok tt, f s)

abbrev pub continue : {S A B : Type 0} → Reply A → (A → Exec S B) → Exec S B
continue (ok a) f s = f a s
continue (raised e) f s = (raised e, s)
continue crashed f s = (crashed, s)

infixl 5 ◌>>=◌ ◌>>◌
abbrev pub ◌>>=◌ : {S A B : Type 0} → Exec S A → (A → Exec S B) → Exec S B
◌>>=◌ m f s = let (r, t) = m s in continue r f t

abbrev pub ◌>>◌ : {S A B : Type 0} → Exec S A → Exec S B → Exec S B
m >> k = m >>= λ _. k

abbrev pub raise_if : {S : Type 0} → Bool → Exn → Exec S Unit
raise_if c e s = (if c then raised e else ok tt, s)
