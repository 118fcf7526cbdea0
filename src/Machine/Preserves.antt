-- ===== src/Machine/Preserves.antt =====
-- Invariants of the machine, in actions and in the shapes of a `do` block.
use anchor_runtime.Base.{Bool, true, false, Option, none, some, ◌≡◌, subst, if◌then◌else◌}
use anchor_runtime.Errors.{Exn}
use anchor_runtime.Exec.{Reply, ok, raised, crashed, or_raise, continue, ◌>>=◌}
use anchor_runtime.Machine.{Machine, M, with_reply}

module _ (I : Machine → Type 0) where
  abbrev pub Preserves : {A : Type 0} → M A → Type 0
  Preserves m = (s : Machine) → I s → I (m s).1

module _ (I : Machine → Type 0) {A : Type 0} where
  pub or_raise-Preserves : (o : Option A) (e : Exn) → Preserves I (or_raise o e)
  or_raise-Preserves none e s h = h
  or_raise-Preserves (some a) e s h = h

module _ (I : Machine → Type 0) where
  pub continue-Preserves :
      {A B : Type 0} (r : Reply A) (f : A → M B)
      → ((a : A) → Preserves I (f a))
      → Preserves I (continue r f)
  continue-Preserves (ok a) f keeps s h = keeps a s h
  continue-Preserves (raised e) f keeps s h = h
  continue-Preserves crashed f keeps s h = h

  pub bind-Preserves :
      {A B : Type 0} (m : M A) (f : A → M B)
      → Preserves I m
      → ((a : A) → Preserves I (f a))
      → Preserves I (m >>= f)
  bind-Preserves m f first rest s h = continue-Preserves (m s).0 f rest (m s).1 (first s h)

  pub if-Preserves :
      {A : Type 0} (b : Bool) (m n : M A)
      → Preserves I m
      → Preserves I n
      → Preserves I (if b then m else n)
  if-Preserves true m n h k = h
  if-Preserves false m n h k = k

  pub with_reply-Preserves :
      {A B : Type 0} (m : M A) (f : Reply A → M B)
      → Preserves I m
      → ((r : Reply A) → Preserves I (f r))
      → Preserves I (with_reply m f)
  with_reply-Preserves m f first rest s h = rest (m s).0 (m s).1 (first s h)

  abbrev PreservesOption : {A : Type 0} → Option (M A) → Type 0
  PreservesOption none = Unit
  PreservesOption (some g) = Preserves I g

  -- There is one lease guard at most.
  pub only_guard-Preserves :
      {A : Type 0} (own g : M A) → some own ≡ some g → Preserves I own → Preserves I g
  only_guard-Preserves own g same keeps = subst (λ o. PreservesOption o) same keeps
