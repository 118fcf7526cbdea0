-- ===== src/Callable/Injection.antt =====
-- Which arguments a step function receives beside those of the call.
use anchor_runtime.Base.{
  String, Bool, true, false, not, ◌||◌, Option, none, some, [], ◌∷◌, ◌++◌, Assoc, ◌≡◌, refl, arith,
  contains, lookup, ◌==◌, eq_iff, eq_refl, if◌then◌else◌,
}
use anchor_runtime.Value.{Dict, end, field}
use anchor_runtime.Model.{Uuid}
use anchor_runtime.Callable.{
  Arg, token_arg, Callable, injected, has_key, keep_args, passed, clash, call_unless, invoke,
}

-- Only keys that pass the test are kept.
keep_args-keeps :
    (p : String → Bool) (k : String) (d : Dict) → p k ≡ false → has_key k (keep_args p d) ≡ false
keep_args-keeps p k end h = refl
keep_args-keeps p k (field j v d) h = ground (arith, keep_args-keeps p k d h, eq_iff j k)

found_later : (b : Bool) {c : Bool} → c ≡ true → (b || c) ≡ true
found_later b h = ground arith

no_clash :
    {V : Type 0} (d e : Assoc V)
    → ((k : String) → has_key k d ≡ true → has_key k e ≡ false)
    → clash d e ≡ none
no_clash [] e apart = refl
no_clash ((k, v) ∷ d) e apart =
    rw (apart k (rw (eq_refl k) refl)) (no_clash d e (λ j h. apart j (found_later (k == j) h)))

-- The token comes first among the injected arguments but for the context.
token_injected :
    (fn : Callable) (token : Option Uuid) (rest : Assoc Arg)
    → (contains "token" fn.params || fn.var_keyword) ≡ true
    → lookup "token" (injected fn token ++ rest) ≡ some (token_arg token)
unfolding injected lookup
token_injected fn token rest asked = ground arith

if_true : {A : Type 0} {b : Bool} (x y : A) → b ≡ true → (if b then x else y) ≡ x
if_true x y h = rw h refl

-- With `**kwargs`, all arguments pass but those that are injected.
passed_any :
    (fn : Callable) (token : Option Uuid) (arguments : Dict)
    → fn.var_keyword ≡ true
    → passed fn token arguments ≡ keep_args (λ k. not (has_key k (injected fn token))) arguments
unfolding passed
passed_any fn token arguments any = if_true _ _ any

any_never_clashes :
    (fn : Callable) (token : Option Uuid) (arguments : Dict)
    → fn.var_keyword ≡ true
    → clash (injected fn token) (passed fn token arguments) ≡ none
any_never_clashes fn token arguments any =
    let new = λ (k : String). not (has_key k (injected fn token)) in
    rw (passed_any fn token arguments any) (
      no_clash (injected fn token) (keep_args new arguments)
        (λ k h. keep_args-keeps new k arguments (rw h refl)))

called :
    (fn : Callable) (inj rest : Assoc Arg)
    → clash inj rest ≡ none
    → call_unless (clash inj rest) (inj ++ rest) fn ≡ fn.body (inj ++ rest)
called fn inj rest h = rw h refl

-- A function with `**kwargs` is always called, and the token that its body sees is the step's own,
-- whatever the arguments of the call are named.
pub own_token_passed :
    (fn : Callable) (token : Option Uuid) (arguments : Dict)
    → fn.var_keyword ≡ true
    → (invoke fn token arguments ≡ fn.body (injected fn token ++ passed fn token arguments))
      × (lookup "token" (injected fn token ++ passed fn token arguments) ≡ some (token_arg token))
unfolding invoke
own_token_passed fn token arguments any = (
  called fn (injected fn token) (passed fn token arguments)
      (any_never_clashes fn token arguments any),
  token_injected fn token (passed fn token arguments)
      (found_later (contains "token" fn.params) any),
)
