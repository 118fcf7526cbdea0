-- ===== src/Provider/Echo/Plan.antt =====
-- The scripted provider follows its plan.
use anchor_runtime.Base.{
  ℕ, zero, suc, ◌+◌, ◌≤◌, String, Option, none, some, List, [], ◌∷◌, ◌++◌, ◌≡◌, refl, arith, length,
  sym, Option-cases, inl, inr,
}
use anchor_runtime.Value.{Value}
use anchor_runtime.Provider.{ToolCall, ModelResponse}
use anchor_runtime.Provider.Echo.{EchoProvider, turn_of, planned, respond}

-- The names of the calls in a response.
abbrev pub called : List ToolCall → List String
called [] = []
called (c ∷ cs) = c.name ∷ called cs

-- The names that a provider asks for in `n` turns of a conversation: `grow` is what the workflow adds
-- to the messages for a response.
unfoldable pub asked_for :
    (List Value → ModelResponse)
    → (List Value → ModelResponse → List Value)
    → ℕ
    → List Value
    → List String
asked_for reply grow zero messages = []
asked_for reply grow (suc n) messages =
    let rest = asked_for reply grow n (messages ++ grow messages (reply messages)) in
    called (reply messages).tool_calls ++ rest

turn_of-append : (ms ns : List Value) → turn_of (ms ++ ns) ≡ turn_of ms + turn_of ns
unfolding turn_of
turn_of-append [] ns = omega arith
turn_of-append (m ∷ ms) ns = ground (arith, turn_of-append ms ns)

-- The plan from a turn on.
from_turn : ℕ → List String → List String
from_turn zero plan = plan
from_turn (suc k) [] = []
from_turn (suc k) (name ∷ plan) = from_turn k plan

abbrev at_most_one : Option String → List String
at_most_one none = []
at_most_one (some name) = name ∷ []

from_turn-next :
    (k : ℕ) (plan : List String)
    → at_most_one (planned k plan) ++ from_turn (suc k) plan ≡ from_turn k plan
unfolding from_turn planned
from_turn-next zero [] = refl
from_turn-next zero (name ∷ plan) = refl
from_turn-next (suc k) [] = refl
from_turn-next (suc k) (name ∷ plan) = from_turn-next k plan

from_turn-end : (k : ℕ) (plan : List String) → length plan ≤ k → from_turn k plan ≡ []
unfolding from_turn
from_turn-end zero [] h = refl
from_turn-end zero (name ∷ plan) h = ground (arith, h)
from_turn-end (suc k) [] h = refl
from_turn-end (suc k) (name ∷ plan) h = from_turn-end k plan (omega (arith, h))

module _ (chars : Value → ℕ) (loads : String → Option Value) (e : EchoProvider)
    (grow : List Value → ModelResponse → List Value)
    (one : (ms : List Value) (r : ModelResponse) → turn_of (grow ms r) ≡ 1) where
  called-respond :
      (ms : List Value)
      → called (respond chars loads e ms).tool_calls ≡ at_most_one (planned (turn_of ms) e.plan)
  unfolding respond
  called-respond ms = elim (Option-cases (planned (turn_of ms) e.plan)) [
    | inl over ↦ rw over refl
    | inr (name, next) ↦ rw next refl
  ]

  asked_for-from :
      (n k : ℕ) (ms : List Value)
      → turn_of ms ≡ k
      → length e.plan ≤ k + n
      → asked_for (respond chars loads e) grow n ms ≡ from_turn k e.plan
  unfolding asked_for
  asked_for-from zero k ms at enough = sym (from_turn-end k e.plan (omega (arith, enough)))
  asked_for-from (suc n) k ms at enough =
      let more = ms ++ grow ms (respond chars loads e ms) in
      let rest =
        asked_for-from n (suc k) more
          (omega (
            arith,
            turn_of-append ms (grow ms (respond chars loads e ms)),
            one ms (respond chars loads e ms),
            at,
          ))
          (omega (arith, enough)) in
      rw (called-respond ms, at, rest) (from_turn-next k e.plan)

  -- The scripted provider asks for the tools of its plan, one a turn and in this order, and for
  -- nothing more, in any conversation that starts without a message of the assistant and gets one
  -- more for each response, whatever else the messages hold, once it has as many turns as the plan.
  pub plan_followed :
      (n : ℕ) (ms : List Value)
      → turn_of ms ≡ 0
      → length e.plan ≤ n
      → asked_for (respond chars loads e) grow n ms ≡ e.plan
  unfolding from_turn
  plan_followed n ms fresh enough = asked_for-from n 0 ms fresh (omega (arith, enough))
