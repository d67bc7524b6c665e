-- ===== src/Providers/Openai/Responses.antt =====
-- llms/providers/openai/chatconvert.go: from a response of the Responses API.
use maestro_llms.Base.{
  String, append_text, List, [], ◌∷◌, ◌++◌, map, if◌then◌else◌, str_eq, ◌&&◌, not,
}
use maestro_llms.Base.Int.{ℤ, pos, ltb_ℤ, sub64}
use maestro_llms.Llms.Message.{
  Bytes, Role, ContentPart, ToolCall, ChatResponse, text_part, call_part,
}
use maestro_llms.Llms.Usage.{Usage, zero_usage, cache_split}

-- The content of an output message: an `output_text`, or of any other type.
pub data OutputContent : Type 0 where
  output_text : String → OutputContent
  other : String → OutputContent

-- `ResponseOutputItemUnion`.
pub data OutputItem : Type 0 where
  function_call : (call_id name : String) (arguments : Bytes) → OutputItem
  message : List OutputContent → OutputItem
  other : String → OutputItem

-- `ResponseUsage`.
pub record WireUsage : Type 0 where
  pub input_tokens : ℤ
  pub output_tokens : ℤ
  pub total_tokens : ℤ
  pub reasoning_tokens : ℤ
  pub cached_tokens : ℤ
  pub cache_write_tokens : ℤ

pub record Response : Type 0 where
  pub id : String
  pub status : String
  pub incomplete_reason : String
  pub output : List OutputItem
  pub usage : WireUsage

-- `openaiStopReason`.
unfoldable pub openai_stop_reason : Response → String
openai_stop_reason resp =
    if str_eq resp.status "incomplete" && not (str_eq resp.incomplete_reason "")
    then resp.incomplete_reason
    else resp.status

-- The texts of an output message, but the empty ones.
unfoldable pub texts_of : List OutputContent → List String
texts_of [] = []
texts_of (OutputContent.output_text t ∷ cs) =
    let rest = texts_of cs in if str_eq t "" then rest else t ∷ rest
texts_of (OutputContent.other ty ∷ cs) = texts_of cs

abbrev pub call_of : String → String → Bytes → ToolCall
call_of id name args = record { id = id; name = name; parameters = args; provider_signature = [] }

-- The `switch` of `toChatResponse` on an output item.
unfoldable pub parts_of : OutputItem → List ContentPart
unfolding texts_of
parts_of (OutputItem.function_call id name args) = call_part (call_of id name args) ∷ []
parts_of (OutputItem.message cs) = map text_part (texts_of cs)
parts_of (OutputItem.other ty) = []

unfoldable pub all_parts : List OutputItem → List ContentPart
unfolding parts_of
all_parts [] = []
all_parts (item ∷ items) = parts_of item ++ all_parts items

unfoldable pub all_calls : List OutputItem → List ToolCall
all_calls [] = []
all_calls (OutputItem.function_call id name args ∷ items) = call_of id name args ∷ all_calls items
all_calls (item ∷ items) = all_calls items

concat_text : List String → String → String
concat_text [] rest = rest
concat_text (t ∷ ts) rest = append_text t (concat_text ts rest)

unfoldable pub all_text : List OutputItem → String
unfolding texts_of concat_text
all_text [] = ""
all_text (OutputItem.message cs ∷ items) = concat_text (texts_of cs) (all_text items)
all_text (item ∷ items) = all_text items

unfoldable pub usage_of : Response → Usage
unfolding sub64
usage_of resp =
    let u = resp.usage in
    let visible = sub64 u.output_tokens u.reasoning_tokens in
    let (read, write) = cache_split u.input_tokens u.cached_tokens u.cache_write_tokens in
    record zero_usage {
      input_tokens = u.input_tokens;
      output_tokens = if ltb_ℤ visible (pos 0) then pos 0 else visible;
      reasoning_tokens = u.reasoning_tokens;
      billable_output_tokens = u.output_tokens;
      total_tokens = u.total_tokens;
      cache_read_tokens = read;
      cache_write_tokens = write;
      provider_request_id = resp.id;
    }

-- `toChatResponse`.
unfoldable pub to_chat_response : Response → ChatResponse
unfolding openai_stop_reason all_parts all_calls all_text usage_of
to_chat_response resp = record {
  message = record { role = Role.assistant; content = all_parts resp.output };
  text = all_text resp.output;
  tool_calls = all_calls resp.output;
  stop_reason = openai_stop_reason resp;
  usage = usage_of resp;
}
