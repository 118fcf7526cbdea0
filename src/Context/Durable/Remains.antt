-- ===== src/Context/Durable/Remains.antt =====
-- What an attempt holds at its end.
use anchor_runtime.Base.{ℕ, String, Bool, Option, some, List, ◌∷◌, Assoc, ◌≡◌, refl, sym, subst}
use anchor_runtime.Value.{Value, Dict}
use anchor_runtime.Model.{Uuid, StepIdempotency}
use anchor_runtime.Exec.{Reply, ok, raised, crashed}
use anchor_runtime.Machine.{Machine, M}
use anchor_runtime.Callable.{Callable, invoke}
use anchor_runtime.Context.Guards.{Runtime}
use anchor_runtime.Context.Replay.Keys.{after_key}
use anchor_runtime.Context.Durable.Attempt.{IsDurable}
use anchor_runtime.Context.Durable.Trajectory.{
  Program, finish, then_step, perform, key_of, run_step, perform_on, perform-step,
}
use anchor_runtime.Context.Durable.Holding.{
  HasAll, IsOld, IsQuiet, IsClean, Holding, step-Holding, returned-Holding,
}

weakened :
    (id : Uuid) (l : List (String × Value)) (o : Assoc ℕ) (m : Machine)
    → Holding id l o m
    → IsDurable id (λ c p. HasAll l c) m
weakened id l o m h = record {
  has_run = h.has_run;
  kept = h.kept;
  monotone = h.monotone;
  results = h.results.0;
}

module _ (rt : Runtime) (guard : (g : M Bool) → rt.lease_guard ≡ some g → IsQuiet rt.run_id g) where
  abbrev id : Uuid
  id = rt.run_id

  -- What an attempt holds when it goes on with `p`, it holds to its end, whatever the end.
  abbrev Remains : Program → Type 0
  Remains p =
      (l : List (String × Value)) (m : Machine)
      → IsOld l m.ctx.ordinals
      → Holding id l m.ctx.ordinals m
      → IsDurable id (λ c o. HasAll l c) (perform rt p m).1

  module _ (name : String) (fn : Callable) (i : StepIdempotency) (verify : Option Callable)
      (max_attempts : Option ℕ) (kwargs : Dict) (next : Value → Program)
      (body : (token : Uuid) → IsQuiet id (invoke fn (some token) kwargs))
      (answers : (token : Uuid) (f : Callable)
        → verify ≡ some f
        → IsQuiet id (invoke f (some token) kwargs))
      (l : List (String × Value)) (m : Machine) (old : IsOld l m.ctx.ordinals)
      (h : Holding id l m.ctx.ordinals m) where
    abbrev ran : Reply (Value × Bool) × Machine
    ran = run_step rt name fn i verify max_attempts kwargs m

    pub stepped : Holding id l (after_key name m).ctx.ordinals ran.1
    stepped = step-Holding rt guard name fn i verify max_attempts kwargs l m body answers old h

    pub returned :
        (v : Value) (executed : Bool) (n : Machine)
        → ran ≡ (ok (v, executed), n)
        → Holding id ((key_of rt name m, v) ∷ l) n.ctx.ordinals n
          × IsOld ((key_of rt name m, v) ∷ l) n.ctx.ordinals
    returned v executed n same =
        returned-Holding rt guard name fn i verify max_attempts kwargs l m n v executed same
          (subst (λ r. Holding id l (after_key name m).ctx.ordinals r.1) same stepped) old

    step-Remains :
        (r : Reply (Value × Bool)) (n : Machine)
        → ran ≡ (r, n)
        → ((v : Value) → Remains (next v))
        → IsDurable id (λ c o. HasAll l c) (perform_on rt next r n).1
    step-Remains (ok (v, executed)) n same rest =
        let (holds, olds) = returned v executed n same in
        let end = rest v ((key_of rt name m, v) ∷ l) n olds holds in
        record {
          has_run = end.has_run;
          kept = end.kept;
          monotone = end.monotone;
          results = end.results.1;
        }
    step-Remains (raised e) n same rest =
        weakened id l (after_key name m).ctx.ordinals n
          (subst (λ r. Holding id l (after_key name m).ctx.ordinals r.1) same stepped)
    step-Remains crashed n same rest =
        weakened id l (after_key name m).ctx.ordinals n
          (subst (λ r. Holding id l (after_key name m).ctx.ordinals r.1) same stepped)

  pub remains : (p : Program) → IsClean rt p → Remains p
  unfolding perform
  remains (finish v) clean l m old h = weakened id l m.ctx.ordinals m h
  remains (then_step name fn i verify max_attempts kwargs next) (body, answers, rest) l m old h =
      let ran = run_step rt name fn i verify max_attempts kwargs m in
      subst (λ p. IsDurable id (λ c o. HasAll l c) p.1)
        (sym (perform-step rt name fn i verify max_attempts kwargs next m))
        (step-Remains name fn i verify max_attempts kwargs next body answers l m old h ran.0 ran.1
          refl (λ v. remains (next v) (rest v)))
