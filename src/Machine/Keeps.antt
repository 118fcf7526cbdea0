-- ===== src/Machine/Keeps.antt =====
-- Invariants of the side effects and of the attempt's attributes, whatever the process and the rest
-- of the world do meanwhile.
use anchor_runtime.Base.{Bool, Option, List, [], ◌∷◌, if◌then◌else◌}
use anchor_runtime.Errors.{Exn}
use anchor_runtime.Exec.{or_raise, ◌>>=◌}
use anchor_runtime.Postgres.Tables.{EffectRow, Db, Sql}
use anchor_runtime.Machine.{
  Interference, crash, others, Context, Machine, M, after_interference, call, modify_ctx,
}
use anchor_runtime.Machine.Preserves.{Preserves, or_raise-Preserves, bind-Preserves, if-Preserves}

-- The others, too, keep the invariant of the effects.
abbrev pub IsPeaceful : (List EffectRow → Type 0) → List Interference → Type 0
IsPeaceful E [] = Unit
IsPeaceful E (crash ∷ rest) = IsPeaceful E rest
IsPeaceful E (others f ∷ rest) = ((db : Db) → E db.effects → E (f db).effects) × IsPeaceful E rest

-- The invariant now, and a schedule that keeps it.
pub record Holds (E : List EffectRow → Type 0) (C : Context → Type 0) (s : Machine) : Type 0 where
  pub effects : E s.db.effects
  pub peaceful : IsPeaceful E s.schedule
  pub context : C s.ctx

module _ (E : List EffectRow → Type 0) (C : Context → Type 0) where
  abbrev pub Keeps : {A : Type 0} → M A → Type 0
  Keeps m = Preserves (Holds E C) m

module _ (E : List EffectRow → Type 0) (C : Context → Type 0) {A : Type 0} where
  after-Keeps :
      (op : Sql A) (es : List Interference) (s : Machine)
      → ((db : Db) → E db.effects → E (op db).1.effects)
      → IsPeaceful E es
      → Holds E C s
      → Holds E C (after_interference es op s).1
  after-Keeps op [] s keeps calm h = record {
    effects = keeps s.db h.effects;
    peaceful = h.peaceful;
    context = h.context;
  }
  after-Keeps op (crash ∷ rest) s keeps calm h = record {
    effects = h.effects;
    peaceful = calm;
    context = h.context;
  }
  after-Keeps op (others f ∷ rest) s keeps calm h = record {
    effects = keeps (f s.db) (calm.0 s.db h.effects);
    peaceful = calm.1;
    context = h.context;
  }

  pub call-Keeps :
      (op : Sql A) → ((db : Db) → E db.effects → E (op db).1.effects) → Keeps E C (call op)
  unfolding call
  call-Keeps op keeps s h = after-Keeps op s.schedule s keeps h.peaceful h

module _ (E : List EffectRow → Type 0) (C : Context → Type 0) where
  abbrev pub or_raise-Keeps : {A : Type 0} (o : Option A) (e : Exn) → Keeps E C (or_raise o e)
  or_raise-Keeps = or_raise-Preserves (Holds E C)

  abbrev pub bind-Keeps :
      {A B : Type 0} (m : M A) (f : A → M B)
      → Keeps E C m
      → ((a : A) → Keeps E C (f a))
      → Keeps E C (m >>= f)
  bind-Keeps = bind-Preserves (Holds E C)

  abbrev pub if-Keeps :
      {A : Type 0} (b : Bool) (m n : M A)
      → Keeps E C m
      → Keeps E C n
      → Keeps E C (if b then m else n)
  if-Keeps = if-Preserves (Holds E C)

-- Whatever the attributes of the attempt become.
abbrev pub Any : Context → Type 0
Any c = Unit

module _ (E : List EffectRow → Type 0) where
  abbrev pub Calm : {A : Type 0} → M A → Type 0
  Calm m = Keeps E Any m

pub changed : (E : List EffectRow → Type 0) (f : Context → Context) → Keeps E Any (modify_ctx f)
changed E f s h = record { effects = h.effects; peaceful = h.peaceful; context = tt }
