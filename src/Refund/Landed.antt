-- ===== src/Refund/Landed.antt =====
-- The verifier of the refund only reads the side effects.
use anchor_runtime.Base.{String, Option, none, some, List, Assoc}
use anchor_runtime.Value.{Dict}
use anchor_runtime.Model.{Uuid}
use anchor_runtime.Errors.{Host}
use anchor_runtime.Postgres.Tables.{EffectRow}
use anchor_runtime.Postgres.Effects.{find_side_effect}
use anchor_runtime.Machine.{call}
use anchor_runtime.Machine.Keeps.{Any, Calm, call-Keeps, bind-Keeps}
use anchor_runtime.Callable.{Arg, Callable, invoke, call_unless, clash, injected, passed}
use anchor_runtime.Refund.Tools.{landed_body}

module _ (E : List EffectRow → Type 0) where
  pub landed-Calm : (host : Host) (token : Option Uuid) → Calm E (landed_body host token)
  unfolding find_side_effect
  landed-Calm host none = λ s h. h
  landed-Calm host (some token) =
      bind-Keeps E Any (call (find_side_effect host.iso token)) _
        (call-Keeps E Any (find_side_effect host.iso token) (λ db h. h)) (λ _ s h. h)

  unless-Calm :
      (o : Option String) (args : Assoc Arg) (fn : Callable)
      → ((a : Assoc Arg) → Calm E (fn.body a))
      → Calm E (call_unless o args fn)
  unless-Calm none args fn body = body args
  unless-Calm (some k) args fn body = λ s h. h

  -- A function keeps the invariant if its body does.
  pub invoke-Calm :
      (fn : Callable) (token : Option Uuid) (args : Dict)
      → ((a : Assoc Arg) → Calm E (fn.body a))
      → Calm E (invoke fn token args)
  unfolding invoke
  invoke-Calm fn token args body =
      unless-Calm (clash (injected fn token) (passed fn token args)) _ fn body
