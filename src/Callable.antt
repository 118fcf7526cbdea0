-- ===== src/Callable.antt =====
-- `_invoke` of src/anchor/context.py: call a step or tool function passing only what it declares.
pub mod Injection
use anchor_runtime.Base.{
  String, Bool, true, false, not, ◌||◌, ◌<>◌, Option, none, some, List, [], ◌∷◌, ◌++◌, Assoc,
  contains, ◌==◌, if◌then◌else◌,
}
use anchor_runtime.Value.{Value, Dict, end, field}
use anchor_runtime.Model.{Uuid}
use anchor_runtime.Errors.{other}
use anchor_runtime.Exec.{raise}
use anchor_runtime.Machine.{M}

-- An argument as the callee receives it. The context is the machine that its body acts on.
pub data Arg : Type 0 where
  ctx_arg : Arg
  token_arg : Option Uuid → Arg
  value_arg : Value → Arg

-- A function with the part of its signature that `inspect` reads: the names of its parameters, and
-- whether one of them is `**kwargs`. `body` is the call with these keyword arguments, a missing or
-- unexpected one included.
pub record Callable : Type 0 where
  pub params : List String
  pub var_keyword : Bool
  pub body : Assoc Arg → M Value

unfoldable pub injected : Callable → Option Uuid → Assoc Arg
injected fn token =
    (if contains "ctx" fn.params then ("ctx", ctx_arg) ∷ [] else [])
    ++ (if contains "token" fn.params || fn.var_keyword
        then ("token", token_arg token) ∷ []
        else [])

abbrev pub has_key : {V : Type 0} → String → Assoc V → Bool
has_key k [] = false
has_key k ((j, v) ∷ d) = j == k || has_key k d

abbrev pub keep_args : (String → Bool) → Dict → Assoc Arg
keep_args p end = []
keep_args p (field k v d) = if p k then (k, value_arg v) ∷ keep_args p d else keep_args p d

unfoldable pub passed : Callable → Option Uuid → Dict → Assoc Arg
unfolding injected
passed fn token arguments =
    if fn.var_keyword
    then keep_args (λ k. not (has_key k (injected fn token))) arguments
    else keep_args (λ k. contains k fn.params) arguments

-- The first key of the first dict that the second has too.
abbrev pub clash : {V : Type 0} → Assoc V → Assoc V → Option String
clash [] e = none
clash ((k, v) ∷ d) e = if has_key k e then some k else clash d e

abbrev pub call_unless : Option String → Assoc Arg → Callable → M Value
call_unless none args fn = fn.body args
call_unless (some k) args fn =
    raise (other "TypeError" ("got multiple values for keyword argument '" <> k <> "'"))

-- `fn(**injected, **passed)` raises where the two have a key in common.
unfoldable pub invoke : Callable → Option Uuid → Dict → M Value
unfolding injected passed
invoke fn token arguments =
    let inj = injected fn token in
    let rest = passed fn token arguments in call_unless (clash inj rest) (inj ++ rest) fn
