-- ===== src/Registry.antt =====
-- src/anchor/registry.py: workflows and tools by name. A function or spec has an identity, `ident`,
-- for the test `is not`.
use Prim.Native.String.{compare}
use text.Mathlib.Text.{is_le}
use anchor_runtime.Base.{
  ℕ, String, ◌<>◌, not, Option, none, some, List, [], ◌∷◌, Assoc, lookup, insert, eqb, ◌==◌,
  if◌then◌else◌,
}
use anchor_runtime.Value.{Value, str, obj, Dict, end, field}
use anchor_runtime.Model.{StepIdempotency}
use anchor_runtime.Errors.{Host, Exn, other, workflow_not_found, tool_not_found}
use anchor_runtime.Exec.{Reply, ok, raised, crashed, Exec, pure, ◌>>◌}
use anchor_runtime.Machine.{M}
use anchor_runtime.Callable.{Callable}

-- An async function of (ctx, input).
pub record WorkflowFn : Type 0 where
  pub ident : ℕ
  pub run : Dict → M Value

pub record ToolSpec : Type 0 where
  pub ident : ℕ
  pub name : String
  pub fn : Callable
  pub description : String
  pub input_schema : Dict
  pub idempotency : StepIdempotency
  pub verify : Option Callable

unfoldable pub to_model_schema : ToolSpec → Dict
to_model_schema t =
    field "name" (str t.name)
      (field "description" (str t.description) (field "input_schema" (obj t.input_schema) end))

pub record Registry : Type 0 where
  pub workflows : Assoc WorkflowFn
  pub tools : Assoc ToolSpec

-- `Registry()`, and what `clear` leaves.
abbrev pub empty : Registry
empty = record { workflows = []; tools = [] }

module _ (host : Host) where
  abbrev taken : String → String → Exn
  taken kind name =
      other "ValueError" (kind <> " " <> host.repr_str name <> " is already registered")

  unfoldable pub register_workflow : String → WorkflowFn → Registry → Reply Unit × Registry
  register_workflow name fn r = elim (lookup name r.workflows) [
    | none ↦ (ok tt, record r { workflows = insert name fn r.workflows })
    | some old ↦
        if not (eqb old.ident fn.ident)
        then (raised (taken "workflow" name), r)
        else (ok tt, record r { workflows = insert name fn r.workflows })
  ]

  unfoldable pub register_tool : ToolSpec → Registry → Reply Unit × Registry
  register_tool spec r = elim (lookup spec.name r.tools) [
    | none ↦ (ok tt, record r { tools = insert spec.name spec r.tools })
    | some old ↦
        if not (eqb old.ident spec.ident)
        then (raised (taken "tool" spec.name), r)
        else (ok tt, record r { tools = insert spec.name spec r.tools })
  ]

abbrev insert_name : String → List String → List String
insert_name k [] = k ∷ []
insert_name k (j ∷ js) = if is_le (compare k j) then k ∷ j ∷ js else j ∷ insert_name k js

abbrev sorted_names {ℓ} : {V : Type ℓ} → Assoc V → List String
sorted_names [] = []
sorted_names ((k, v) ∷ d) = insert_name k (sorted_names d)

abbrev pub join_names : List String → String
join_names [] = ""
join_names (k ∷ []) = k
join_names (k ∷ j ∷ js) = k <> ", " <> join_names (j ∷ js)

-- `", ".join(names) or "<none>"`
abbrev known : List String → String
known [] = "<none>"
known (k ∷ ks) = let s = join_names (k ∷ ks) in if s == "" then "<none>" else s

module _ (host : Host) where
  -- The decorator `workflow`, applied to a function: `registry` is the state.
  unfoldable pub declare_workflow : String → WorkflowFn → Exec Registry WorkflowFn
  unfolding register_workflow
  declare_workflow name fn = do register_workflow host name fn; pure fn

  -- `input_schema or {"type": "object", "properties": {}}`
  abbrev pub schema_or_default : Option Dict → Dict
  schema_or_default (some (field k v d)) = field k v d
  schema_or_default _ = field "type" (str "object") (field "properties" (obj end) end)

  -- The decorator `tool`, applied to a function; `ident` is the identity of the new spec.
  unfoldable pub declare_tool :
      ℕ
      → String
      → String
      → Option Dict
      → StepIdempotency
      → Option Callable
      → Callable
      → Exec Registry Callable
  unfolding register_tool
  declare_tool ident name description input_schema idempotency verify fn = do
    register_tool host (record {
      ident = ident;
      name = name;
      fn = fn;
      description = description;
      input_schema = schema_or_default input_schema;
      idempotency = idempotency;
      verify = verify;
    })
    pure fn

unfoldable pub workflow_names : Registry → List String
workflow_names r = sorted_names r.workflows

unfoldable pub tool_names : Registry → List String
tool_names r = sorted_names r.tools

module _ (host : Host) where
  abbrev not_registered : String → List String → String
  not_registered name names = host.repr_str name <> " not registered (known: " <> known names <> ")"

  unfoldable pub workflow : String → Registry → Reply WorkflowFn
  workflow name r = elim (lookup name r.workflows) [
    | none ↦ raised (workflow_not_found (not_registered name (workflow_names r)))
    | some fn ↦ ok fn
  ]

  unfoldable pub tool : String → Registry → Reply ToolSpec
  tool name r = elim (lookup name r.tools) [
    | none ↦ raised (tool_not_found (not_registered name (tool_names r)))
    | some spec ↦ ok spec
  ]

  abbrev schemas_for : Registry → List String → Reply (List Dict)
  schemas_for r [] = ok []
  schemas_for r (n ∷ ns) = elim (tool n r) [
    | raised e ↦ raised e
    | crashed ↦ crashed
    | ok spec ↦ elim (schemas_for r ns) [
      | raised e ↦ raised e
      | crashed ↦ crashed
      | ok rest ↦ ok (to_model_schema spec ∷ rest)
    ]
  ]

  -- `names=None` stands for all tools in order.
  unfoldable pub tool_schemas : Option (List String) → Registry → Reply (List Dict)
  unfolding tool
  tool_schemas none r = schemas_for r (tool_names r)
  tool_schemas (some names) r = schemas_for r names
