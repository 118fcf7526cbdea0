-- ===== src/Provider/Anthropic.antt =====
-- src/anchor/providers/anthropic.py: the provider that asks the Anthropic API. The client of the
-- package `anthropic` is a parameter; prices are in micro-dollars, and so is the cost, rounded down.
pub mod Answers
use anchor_runtime.Base.{
  ℕ, ◌+◌, ◌*◌, ◌/◌, String, ◌<>◌, Bool, true, false, Option, none, some, or_else, List, [], ◌∷◌,
  ◌++◌, ◌≡◌, refl, sym, ap, ◌∙◌, arith, ◌==◌, if◌then◌else◌,
}
use anchor_runtime.Value.{Value, int, str, arr, arr_of, Dict, end, field, set}
use anchor_runtime.Errors.{Exn, other}
use anchor_runtime.Exec.{
  Reply, ok, raised, crashed, Exec, pure, raise, gets, raise_if, continue, ◌>>=◌, ◌>>◌,
}
use anchor_runtime.Config.{Environment, number_or}
use anchor_runtime.Machine.{Machine, M}
use anchor_runtime.Provider.{ToolCall, ModelResponse, ModelProvider}

-- A block of a message, by its attribute `type`.
pub data Block : Type 0 where
  text : String → Block
  tool_use : String → String → Dict → Block
  unread : String → Block

-- What `messages.create` returns.
pub record Message : Type 0 where
  pub content : List Block
  pub stop_reason : Option String
  pub input_tokens : ℕ
  pub output_tokens : ℕ

-- `AsyncAnthropic(api_key=key).messages.create(**kwargs)`
abbrev pub Client : Type 0
Client = String → Dict → M Message

pub record AnthropicProvider : Type 0 where
  pub model : String
  pub api_key : String
  pub price_in : ℕ
  pub price_out : ℕ

-- `_price`
unfoldable pub price : String → Exec Environment ℕ
price direction = do
  raw ← gets (λ env. env.getenv ("ANCHOR_PRICE_" <> direction <> "_PER_MTOK"))
  number_or (λ env. env.float) 0 raw

abbrev price_or : String → Option ℕ → Exec Environment ℕ
price_or direction none = price direction
price_or direction (some p) = pure p

-- `key or other`, and whether it is false
abbrev pub or_key : Option String → Option String → String
or_key none second = or_else second ""
or_key (some key) second = if key == "" then or_else second "" else key

-- `__init__`; `installed` says whether the import of the package succeeds.
unfoldable pub new_provider :
    Bool → String → Option String → Option ℕ → Option ℕ → Exec Environment AnthropicProvider
unfolding price
new_provider false model api_key price_in price_out = raise (
    other "RuntimeError" (
      "the anthropic package is required for ANCHOR_MODEL_PROVIDER=anthropic; "
      <> "pip install 'anchor-runtime[anthropic]'"))
new_provider true model api_key price_in price_out = do
  found ← gets (λ env. env.getenv "ANTHROPIC_API_KEY")
  let key = or_key api_key found
  raise_if (key == "") (other "RuntimeError" "ANTHROPIC_API_KEY is not set")
  per_in ← price_or "IN" price_in
  per_out ← price_or "OUT" price_out
  pure (record { model = model; api_key = key; price_in = per_in; price_out = per_out })

-- `if tools: kwargs["tools"] = tools`
abbrev pub with_tools : Option (List Value) → Dict → Dict
with_tools none kwargs = kwargs
with_tools (some []) kwargs = kwargs
with_tools (some (t ∷ ts)) kwargs = set "tools" (arr (arr_of (t ∷ ts))) kwargs

-- `if system: kwargs["system"] = system`
abbrev pub with_system : Option String → Dict → Dict
with_system none kwargs = kwargs
with_system (some s) kwargs = if s == "" then kwargs else set "system" (str s) kwargs

abbrev pub request : AnthropicProvider → List Value → Option (List Value) → Option String → ℕ → Dict
request p messages tools system max_tokens = with_system system (
    with_tools tools (
      field "model" (str p.model)
        (field "max_tokens" (int max_tokens) (field "messages" (arr (arr_of messages)) end))))

-- The loop over the blocks, with `text_parts` and `calls` so far.
unfoldable pub read_blocks : List Block → List String → List ToolCall → List String × List ToolCall
read_blocks [] text_parts calls = (text_parts, calls)
read_blocks (text t ∷ blocks) text_parts calls = read_blocks blocks (text_parts ++ t ∷ []) calls
read_blocks (tool_use id name input ∷ blocks) text_parts calls =
    read_blocks blocks text_parts (calls ++ record { id = id; name = name; arguments = input } ∷ [])
read_blocks (unread type ∷ blocks) text_parts calls = read_blocks blocks text_parts calls

-- `"".join(parts)`
abbrev pub join : List String → String
join [] = ""
join (s ∷ ss) = s <> join ss

-- `stop_reason or "end_turn"`
abbrev pub reason_or : String → Option String → String
reason_or default none = default
reason_or default (some s) = if s == "" then default else s

abbrev pub cost : AnthropicProvider → Message → ℕ
cost p msg = (msg.input_tokens * p.price_in + msg.output_tokens * p.price_out) / 1000000

unfoldable pub response_of : AnthropicProvider → Message → ModelResponse
unfolding read_blocks
response_of p msg =
    let (text_parts, calls) = read_blocks msg.content [] [] in
    record {
      text = join text_parts;
      tool_calls = calls;
      stop_reason = reason_or "end_turn" msg.stop_reason;
      input_tokens = msg.input_tokens;
      output_tokens = msg.output_tokens;
      cost_usd = cost p msg;
      model = p.model;
    }

module _ (client : Client) (p : AnthropicProvider) where
  unfoldable pub complete : List Value → Option (List Value) → Option String → ℕ → M ModelResponse
  unfolding response_of
  complete messages tools system max_tokens = do
    message ← client p.api_key (request p messages tools system max_tokens)
    pure (response_of p message)

  abbrev pub as_provider : ModelProvider
  as_provider = record { name = "anthropic"; complete = complete }
