-- ===== src/Providers/Anthropic/Responses.antt =====
-- llms/providers/anthropic/convert.go: from a response of the server, and the reasoning controls.
-- The SDK's Message is a record of its own here.
use maestro_llms.Base.{String, false, append_text, Option, none, some, List, [], ◌∷◌, ◌++◌}
use maestro_llms.Base.Int.{ℤ, pos, max_ℤ, min_ℤ, add64, sub64}
use maestro_llms.Llms.Message.{
  Bytes, Role, ContentPart, ContentPartType, ToolCall, ChatResponse, text_part, call_part,
}
use maestro_llms.Llms.Usage.{Usage, zero_usage}
use maestro_llms.Providers.Anthropic.{ThinkingCodec, ThinkingWire, ThinkingType}

-- `ContentBlockUnion`, by its type.
pub data ResponseBlock : Type 0 where
  text : String → ResponseBlock
  thinking : (thinking signature : String) → ResponseBlock
  redacted_thinking : (data_text : String) → ResponseBlock
  tool_use : (id name : String) (input : Bytes) → ResponseBlock
  other : String → ResponseBlock

-- `Usage`; thinking_tokens is none where the field is not valid.
pub record WireUsage : Type 0 where
  pub input_tokens : ℤ
  pub output_tokens : ℤ
  pub thinking_tokens : Option ℤ
  pub cache_read_input_tokens : ℤ
  pub cache_creation_input_tokens : ℤ

pub record WireMessage : Type 0 where
  pub id : String
  pub content : List ResponseBlock
  pub stop_reason : String
  pub usage : WireUsage

-- The thinking tokens of `buildUsage`.
unfoldable pub reasoning_of : Option ℤ → ℤ → ℤ
reasoning_of none wire_out = pos 0
reasoning_of (some n) wire_out = min_ℤ (max_ℤ n (pos 0)) wire_out

-- `buildUsage`.
unfoldable pub build_usage : WireMessage → Usage
unfolding reasoning_of add64 sub64
build_usage msg =
    let u = msg.usage in
    let reasoning = reasoning_of u.thinking_tokens u.output_tokens in
    let read = max_ℤ u.cache_read_input_tokens (pos 0) in
    let write = max_ℤ u.cache_creation_input_tokens (pos 0) in
    let input = add64 (add64 (max_ℤ u.input_tokens (pos 0)) read) write in
    record zero_usage {
      input_tokens = input;
      output_tokens = visible_of u.thinking_tokens u.output_tokens reasoning;
      reasoning_tokens = reasoning;
      billable_output_tokens = u.output_tokens;
      total_tokens = add64 input u.output_tokens;
      cache_read_tokens = read;
      cache_write_tokens = write;
      provider_request_id = msg.id;
    }
  where
    visible_of : Option ℤ → ℤ → ℤ → ℤ
    visible_of none wire_out reasoning = wire_out
    visible_of (some n) wire_out reasoning = sub64 wire_out reasoning

-- The part of a thinking block; `readable` is the readable thinking.
abbrev pub thinking_part : String → Bytes → ContentPart
thinking_part readable encoded = record {
  type = ContentPartType.reasoning;
  text = "";
  tool_call = none;
  tool_result = none;
  reasoning = some (record { provider = "anthropic"; text = readable; provider_data = encoded });
  cache_breakpoint = false;
}

abbrev pub thinking_wire : String → String → ThinkingWire
thinking_wire t signature = record {
  type = ThinkingType.thinking;
  thinking = t;
  signature = signature;
  data_text = "";
}

abbrev pub redacted_wire : String → ThinkingWire
redacted_wire d = record {
  type = ThinkingType.redacted_thinking;
  thinking = "";
  signature = "";
  data_text = d;
}

-- The `thinkingWire` of a thinking block, and its readable text.
unfoldable pub wire_of : ResponseBlock → Option (ThinkingWire × String)
wire_of (ResponseBlock.thinking t signature) = some (thinking_wire t signature, t)
wire_of (ResponseBlock.redacted_thinking d) = some (redacted_wire d, "")
wire_of _ = none

abbrev pub call_of : String → String → Bytes → ToolCall
call_of id name input = record { id = id; name = name; parameters = input; provider_signature = [] }

module _ (codec : ThinkingCodec) where
  unfoldable pub encoded_part : Option (ThinkingWire × String) → List ContentPart
  encoded_part none = []
  encoded_part (some (w, readable)) = elim (codec.marshal w) [
    | none ↦ []
    | some encoded ↦ thinking_part readable encoded ∷ []
  ]

  -- `reasoningPart`: no part or one.
  unfoldable pub reasoning_part : ResponseBlock → List ContentPart
  unfolding encoded_part wire_of
  reasoning_part block = encoded_part (wire_of block)

  -- The parts that the loop of `toResponse` appends for a block.
  unfoldable pub parts_of : ResponseBlock → List ContentPart
  unfolding reasoning_part
  parts_of (ResponseBlock.text t) = text_part t ∷ []
  parts_of (ResponseBlock.thinking t s) = reasoning_part (ResponseBlock.thinking t s)
  parts_of (ResponseBlock.redacted_thinking d) = reasoning_part (ResponseBlock.redacted_thinking d)
  parts_of (ResponseBlock.tool_use id name input) = call_part (call_of id name input) ∷ []
  parts_of (ResponseBlock.other t) = []

  unfoldable pub all_parts : List ResponseBlock → List ContentPart
  unfolding parts_of
  all_parts [] = []
  all_parts (b ∷ bs) = parts_of b ++ all_parts bs

  unfoldable pub all_calls : List ResponseBlock → List ToolCall
  all_calls [] = []
  all_calls (ResponseBlock.tool_use id name input ∷ bs) = call_of id name input ∷ all_calls bs
  all_calls (b ∷ bs) = all_calls bs

  unfoldable pub all_text : List ResponseBlock → String
  all_text [] = ""
  all_text (ResponseBlock.text t ∷ bs) = append_text t (all_text bs)
  all_text (b ∷ bs) = all_text bs

  -- `toResponse`.
  unfoldable pub to_response : WireMessage → ChatResponse
  unfolding all_parts all_calls all_text build_usage
  to_response msg = record {
    message = record { role = Role.assistant; content = all_parts msg.content };
    text = all_text msg.content;
    tool_calls = all_calls msg.content;
    stop_reason = msg.stop_reason;
    usage = build_usage msg;
  }
