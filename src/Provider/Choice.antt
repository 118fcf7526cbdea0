-- ===== src/Provider/Choice.antt =====
-- The choice of the model provider (src/anchor/providers/__init__.py) and of the store
-- (src/anchor/store/__init__.py) by the settings.
use anchor_runtime.Base.{
  String, ◌<>◌, Bool, true, Option, none, List, [], ◌==◌, not, keep, map, if◌then◌else◌,
}
use anchor_runtime.Errors.{Host, other}
use anchor_runtime.Exec.{Reply, ok, raised, Exec, pure, raise, ◌>>=◌}
use anchor_runtime.Config.{Environment, Settings}
use anchor_runtime.Provider.Echo.{EchoProvider}
use anchor_runtime.Provider.Anthropic.{AnthropicProvider, new_provider}

-- `str.lower`, `str.strip` and `str.split(",")`
pub record Strings : Type 0 where
  pub lower : String → String
  pub strip : String → String
  pub split_commas : String → List String

pub data Provider : Type 0 where
  echo : EchoProvider → Provider
  anthropic : AnthropicProvider → Provider

-- `[name.strip() for name in plan.split(",") if name.strip()]`
abbrev pub plan_of : Strings → String → List String
plan_of py plan = keep (λ name. not (name == "")) (map py.strip (py.split_commas plan))

-- `EchoProvider(plan=plan, arguments_from_input=True)`
abbrev pub echo_with : List String → EchoProvider
echo_with plan = record {
  plan = plan;
  arguments = [];
  final_text = "done";
  arguments_from_input = true;
  latency_seconds = 0;
  fail_first_n = 0;
  failures = 0;
}

module _ (host : Host) (py : Strings) (installed : Bool) where
  unfoldable pub build_provider : Settings → Exec Environment Provider
  build_provider settings =
      let kind = py.lower settings.model_provider in
      if kind == "echo"
      then pure (echo (echo_with (plan_of py settings.echo_plan)))
      else if kind == "anthropic"
      then (do
        p ← new_provider installed settings.anthropic_model settings.anthropic_api_key none none
        pure (anthropic p))
      else raise (
          other "ValueError"
            ("unknown ANCHOR_MODEL_PROVIDER: " <> host.repr_str settings.model_provider))

-- The store that is built, with the arguments of its constructor.
pub data Backend : Type 0 where
  postgres : Settings → Backend
  dynamo : String → Option String → String → Backend

unfoldable pub build_store : Host → Settings → Reply Backend
build_store host cfg =
    if cfg.backend == "postgres"
    then ok (postgres cfg)
    else if cfg.backend == "dynamo"
    then ok (dynamo cfg.dynamo_table cfg.dynamo_queue_url cfg.dynamo_region)
    else raised (other "ValueError" ("unknown ANCHOR_BACKEND: " <> host.repr_str cfg.backend))
