-- ===== src/Context/Durable/Holding.antt =====
-- The results of the steps that returned in an attempt, as the attempt holds them.
use anchor_runtime.Base.{
  ℕ, ◌+◌, ◌≤◌, String, Bool, Option, some, List, [], ◌∷◌, Assoc, ◌≡◌, ◌≢◌, refl, sym, subst, ◌∙◌,
  arith, eq_iff, eq_refl, lookup, insert, lookup-insert, or_else,
}
use anchor_runtime.Value.{Value, Dict}
use anchor_runtime.Model.{Uuid, StepIdempotency}
use anchor_runtime.Exec.{ok}
use anchor_runtime.Machine.{Machine, M}
use anchor_runtime.Machine.Preserves.{Preserves}
use anchor_runtime.Callable.{Callable, invoke}
use anchor_runtime.Context.Guards.{Runtime}
use anchor_runtime.Context.Replay.{next_key, step_key}
use anchor_runtime.Context.Replay.Keys.{ordinal, after_key, next_key_fresh}
use anchor_runtime.Context.Steps.Recorded.{returned_is_recorded}
use anchor_runtime.Context.Preserves.Steps.{step-Preserves}
use anchor_runtime.Context.Durable.Attempt.{IsDurable, Durable-IsStable}
use anchor_runtime.Context.Durable.Trajectory.{Program, finish, then_step, key_of, run_step}

-- The results are held.
abbrev pub HasAll : List (String × Value) → Assoc Value → Type 0
HasAll [] c = Unit
HasAll ((k, v) ∷ l) c = (lookup k c ≡ some v) × HasAll l c

-- The keys were given before.
abbrev pub IsOld : List (String × Value) → Assoc ℕ → Type 0
IsOld [] o = Unit
IsOld ((k, v) ∷ l) o =
    ((a : String) × (n : ℕ) × (n ≤ or_else (lookup a o) 0) × (k ≡ step_key a n)) × IsOld l o

abbrev IsFresh : String → List (String × Value) → Type 0
IsFresh key [] = Unit
IsFresh key ((k, v) ∷ l) = (k ≢ key) × IsFresh key l

held-insert :
    (key k : String) (v w : Value) (c : Assoc Value)
    → k ≢ key
    → lookup k c ≡ some v
    → lookup k (insert key w c) ≡ some v
held-insert key k v w c ne h = ground (arith, lookup-insert key k w c, eq_iff key k, ne, h)

HasAll-insert :
    (key : String) (w : Value) (l : List (String × Value)) (c : Assoc Value)
    → IsFresh key l
    → HasAll l c
    → HasAll l (insert key w c)
HasAll-insert key w [] c fresh h = tt
HasAll-insert key w ((k, v) ∷ l) c fresh h =
    (held-insert key k v w c fresh.0 h.0, HasAll-insert key w l c fresh.1 h.1)

module _ (name : String) (m : Machine) where
  abbrev key : String
  key = step_key name (ordinal name m + 1)

  old-IsFresh : (l : List (String × Value)) → IsOld l m.ctx.ordinals → IsFresh key l
  old-IsFresh [] old = tt
  old-IsFresh ((k, v) ∷ l) (first, old) =
      let (a, n, le, e) = first in
      ((λ q. (next_key_fresh name m).1 a n le (sym e ∙ q)), old-IsFresh l old)

  still_given : (a : String) (n : ℕ) → n ≤ ordinal a m → n ≤ ordinal a (after_key name m)
  still_given a n le = ground (arith, (next_key_fresh name m).2 a, eq_iff name a)

  after_key-IsOld :
      (l : List (String × Value)) → IsOld l m.ctx.ordinals → IsOld l (after_key name m).ctx.ordinals
  after_key-IsOld [] old = tt
  after_key-IsOld ((k, v) ∷ l) (first, old) =
      let (a, n, le, e) = first in ((a, n, still_given a n le, e), after_key-IsOld l old)

-- Calls that the attempt makes from outside the context: they touch neither results nor ordinals.
abbrev pub IsQuiet : {A : Type 0} → Uuid → M A → Type 1
IsQuiet id m = (C : Assoc Value → Assoc ℕ → Type 0) → Preserves (IsDurable id C) m

-- The bodies and the verifiers of the steps are quiet.
abbrev pub IsClean : Runtime → Program → Type 1
IsClean rt (finish v) = Unit
IsClean rt (then_step name fn i verify max_attempts kwargs next) =
    ((token : Uuid) → IsQuiet rt.run_id (invoke fn (some token) kwargs))
    × ((token : Uuid) (f : Callable)
        → verify ≡ some f
        → IsQuiet rt.run_id (invoke f (some token) kwargs))
    × ((v : Value) → IsClean rt (next v))

-- The results are held, and the ordinals are these.
abbrev pub HoldsAt : List (String × Value) → Assoc ℕ → Assoc Value → Assoc ℕ → Type 0
HoldsAt l o c p = HasAll l c × (p ≡ o)

abbrev pub Holding : Uuid → List (String × Value) → Assoc ℕ → Machine → Type 0
Holding id l o = IsDurable id (HoldsAt l o)

key_given-Holding :
    (id : Uuid) (l : List (String × Value)) (name : String) (m : Machine)
    → Holding id l m.ctx.ordinals m
    → Holding id l (after_key name m).ctx.ordinals (after_key name m)
unfolding next_key
key_given-Holding id l name m h = record {
  has_run = h.has_run;
  kept = h.kept;
  monotone = h.monotone;
  results = (h.results.0, refl);
}

module _ (rt : Runtime) (guard : (g : M Bool) → rt.lease_guard ≡ some g → IsQuiet rt.run_id g) where
  module _ (name : String) (fn : Callable) (i : StepIdempotency) (verify : Option Callable)
      (max_attempts : Option ℕ) (kwargs : Dict) where
    abbrev id : Uuid
    id = rt.run_id

    pub step-Holding :
        (l : List (String × Value)) (m : Machine)
        → ((token : Uuid) → IsQuiet id (invoke fn (some token) kwargs))
        → ((token : Uuid) (f : Callable)
            → verify ≡ some f
            → IsQuiet id (invoke f (some token) kwargs))
        → IsOld l m.ctx.ordinals
        → Holding id l m.ctx.ordinals m
        → Holding id l
            (after_key name m).ctx.ordinals
            (run_step rt name fn i verify max_attempts kwargs m).1
    step-Holding l m body answers old h =
        let o = (after_key name m).ctx.ordinals in
        let C = HoldsAt l o in
        step-Preserves (IsDurable id C) rt (key_of rt name m)
          (Durable-IsStable rt C (key_of rt name m) (λ v c p held.
            (HasAll-insert (key_of rt name m) v l c (old-IsFresh name m l old) held.0, held.1)))
          fn i verify max_attempts kwargs (λ g same. guard g same C) (λ token. body token C)
          (λ token f same. answers token f same C) (after_key name m)
          (key_given-Holding id l name m h)

    -- A step that returned is one of the results that the attempt holds from then on.
    pub returned-Holding :
        (l : List (String × Value)) (m n : Machine) (v : Value) (executed : Bool)
        → run_step rt name fn i verify max_attempts kwargs m ≡ (ok (v, executed), n)
        → Holding id l (after_key name m).ctx.ordinals n
        → IsOld l m.ctx.ordinals
        → Holding id ((key_of rt name m, v) ∷ l) n.ctx.ordinals n
          × IsOld ((key_of rt name m, v) ∷ l) n.ctx.ordinals
    returned-Holding l m n v executed ran h old =
        let held =
          returned_is_recorded rt (key_of rt name m) fn i verify max_attempts kwargs
            (after_key name m) n v executed ran in
        (
          record {
            has_run = h.has_run;
            kept = h.kept;
            monotone = h.monotone;
            results = ((held, h.results.0), refl);
          },
          subst (IsOld ((key_of rt name m, v) ∷ l)) (sym h.results.1) (
            (
              name,
              ordinal name m + 1,
              ground (arith, (next_key_fresh name m).2 name, eq_refl name),
              refl,
            ),
            after_key-IsOld name m l old,
          ),
        )
