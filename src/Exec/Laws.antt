-- ===== src/Exec/Laws.antt =====
-- One step of a `do` block, from how its first action ends.
use anchor_runtime.Base.{◌≡◌, ap, subst, Bool, true, false, if◌then◌else◌}
use anchor_runtime.Errors.{Exn}
use anchor_runtime.Exec.{Reply, ok, raised, crashed, Exec, continue, ◌>>=◌}

module _ {S A B : Type 0} (m : Exec S A) (f : A → Exec S B) {s t : S} where
  pub bind-ok : {a : A} → m s ≡ (ok a, t) → (m >>= f) s ≡ f a t
  bind-ok h = ap (λ p. continue p.0 f p.1) h

  pub bind-raised : {e : Exn} → m s ≡ (raised e, t) → (m >>= f) s ≡ (raised e, t)
  bind-raised h = ap (λ p. continue p.0 f p.1) h

  pub bind-crashed : m s ≡ (crashed, t) → (m >>= f) s ≡ (crashed, t)
  bind-crashed h = ap (λ p. continue p.0 f p.1) h

-- If the action returned, its value and the state it left are related by `Q`.
abbrev pub Yields : {S A : Type 0} → (A → S → Type 0) → Reply A → S → Type 0
Yields Q (ok a) s = Q a s
Yields Q (raised e) s = Unit
Yields Q crashed s = Unit

pub Yields-any : {S A : Type 0} (r : Reply A) (s : S) → Yields (λ a t. Unit) r s
Yields-any (ok a) s = tt
Yields-any (raised e) s = tt
Yields-any crashed s = tt

pub Yields-if :
    {S A : Type 0} (Q : A → S → Type 0) (c : Bool) (m n : Exec S A) (s : S)
    → Yields Q (m s).0 (m s).1
    → Yields Q (n s).0 (n s).1
    → Yields Q ((if c then m else n) s).0 ((if c then m else n) s).1
Yields-if Q true m n s h k = h
Yields-if Q false m n s h k = k

pub yielded :
    {S A : Type 0} (Q : A → S → Type 0) {p : Reply A × S} {a : A} {s : S}
    → p ≡ (ok a, s)
    → Yields Q p.0 p.1
    → Q a s
yielded Q e h = subst (λ p. Yields Q p.0 p.1) e h

module _ {S A B : Type 0} (P : A → S → Type 0) (Q : B → S → Type 0) where
  pub Yields-next :
      (f : A → Exec S B) (r : Reply A) (s : S)
      → Yields P r s
      → ((a : A) (t : S) → P a t → Yields Q (f a t).0 (f a t).1)
      → Yields Q (continue r f s).0 (continue r f s).1
  Yields-next f (ok a) s h k = k a s h
  Yields-next f (raised e) s h k = tt
  Yields-next f crashed s h k = tt

-- The rest of an action, whatever its beginning did.
pub Yields-then :
    {S A B : Type 0} (Q : B → S → Type 0) (m : Exec S A) (f : A → Exec S B) (s : S)
    → ((a : A) (t : S) → Yields Q (f a t).0 (f a t).1)
    → Yields Q ((m >>= f) s).0 ((m >>= f) s).1
Yields-then Q m f s k =
    Yields-next (λ a t. Unit) Q f (m s).0 (m s).1 (Yields-any (m s).0 (m s).1) (λ a t h. k a t)
