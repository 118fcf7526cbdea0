-- ===== src/Provider/Anthropic/Answers.antt =====
-- What the Anthropic provider makes of a message of the API.
use anchor_runtime.Base.{
  ℕ, String, Option, none, some, List, [], ◌∷◌, ◌++◌, append-nil, append_assoc, ◌≡◌, ◌≢◌, refl, ap,
  ◌∙◌, arith, eq_iff,
}
use anchor_runtime.Value.{Value}
use anchor_runtime.Exec.{ok}
use anchor_runtime.Machine.{Machine}
use anchor_runtime.Provider.{ToolCall, ModelResponse}
use anchor_runtime.Provider.Anthropic.{
  Block, text, tool_use, unread, Message, Client, AnthropicProvider, request, read_blocks, join,
  reason_or, response_of, complete,
}

-- The texts of a message, in order.
abbrev pub texts : List Block → List String
texts [] = []
texts (text t ∷ blocks) = t ∷ texts blocks
texts (_ ∷ blocks) = texts blocks

-- The tool calls of a message, in order.
abbrev pub calls_in : List Block → List ToolCall
calls_in [] = []
calls_in (tool_use id name input ∷ blocks) =
    record { id = id; name = name; arguments = input } ∷ calls_in blocks
calls_in (_ ∷ blocks) = calls_in blocks

read_blocks-exact :
    (blocks : List Block) (ts : List String) (cs : List ToolCall)
    → read_blocks blocks ts cs ≡ (ts ++ texts blocks, cs ++ calls_in blocks)
unfolding read_blocks
read_blocks-exact [] ts cs = rw (append-nil ts, append-nil cs) refl
read_blocks-exact (text t ∷ blocks) ts cs =
    read_blocks-exact blocks (ts ++ t ∷ []) cs ∙ rw (append_assoc ts (t ∷ []) (texts blocks)) refl
read_blocks-exact (tool_use id name input ∷ blocks) ts cs =
    let call : ToolCall = record { id = id; name = name; arguments = input } in
    read_blocks-exact blocks ts (cs ++ call ∷ [])
    ∙ rw (append_assoc cs (call ∷ []) (calls_in blocks)) refl
read_blocks-exact (unread type ∷ blocks) ts cs = read_blocks-exact blocks ts cs

reason_given : (o : Option String) → reason_or "end_turn" o ≢ ""
reason_given none = ground (arith, eq_iff "end_turn" "")
reason_given (some s) = ground (arith, eq_iff s "", eq_iff "end_turn" "")

-- If the client answers the request with a message, `complete` returns a response whose text is that
-- of the text blocks in their order, whose tool calls are those of the tool_use blocks in their
-- order, and whose stop reason is not empty; the machine is as the client left it.
pub complete_answers :
    (client : Client) (p : AnthropicProvider) (messages : List Value) (tools : Option (List Value))
    (system : Option String) (max_tokens : ℕ) (m n : Machine) (message : Message)
    → client p.api_key (request p messages tools system max_tokens) m ≡ (ok message, n)
    → (r : ModelResponse) × (complete client p messages tools system max_tokens m ≡ (ok r, n))
      × (r.text ≡ join (texts message.content))
      × (r.tool_calls ≡ calls_in message.content)
      × (r.stop_reason ≢ "")
unfolding complete response_of
complete_answers client p messages tools system max_tokens m n message answered = (
  response_of p message,
  rw answered refl,
  ap (λ (x : List String × List ToolCall). join x.0) (read_blocks-exact message.content [] []),
  ap (λ (x : List String × List ToolCall). x.1) (read_blocks-exact message.content [] []),
  reason_given message.stop_reason,
)
