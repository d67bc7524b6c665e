-- ===== src/Providers/Google/Responses.antt =====
-- llms/providers/google/convert.go: from a GenerateContentResponse.
use maestro_llms.Base.{
  String, append_text, Bool, Option, none, some, List, [], ◌∷◌, ◌++◌, if◌then◌else◌, str_eq,
}
use maestro_llms.Base.Int.{ℤ, pos, add64}
use maestro_llms.Llms.Message.{
  Bytes, Role, ContentPart, ToolCall, ChatResponse, text_part, call_part,
}
use maestro_llms.Llms.Usage.{Usage, zero_usage, cache_split}
use maestro_llms.Providers.Json.{Fields}
use maestro_llms.Providers.Google.{FunctionCall, Part}

-- `genai.Candidate`, with no parts where its content is nil.
pub record Candidate : Type 0 where
  pub finish_reason : String
  pub parts : List (Option Part)

-- `genai.GenerateContentResponseUsageMetadata`.
pub record UsageMetadata : Type 0 where
  pub candidates_token_count : ℤ
  pub thoughts_token_count : ℤ
  pub prompt_token_count : ℤ
  pub cached_content_token_count : ℤ
  pub total_token_count : ℤ

-- `genai.GenerateContentResponse`.
pub record GenerateResponse : Type 0 where
  pub candidates : List (Option Candidate)
  pub usage_metadata : Option UsageMetadata
  pub response_id : String

abbrev pub first_candidate : List (Option Candidate) → Candidate
first_candidate (some c ∷ cs) = c
first_candidate cs = record { finish_reason = ""; parts = [] }

unfoldable pub usage_counts : Option UsageMetadata → Usage
unfolding add64
usage_counts none = zero_usage
usage_counts (some u) = record zero_usage {
  input_tokens = u.prompt_token_count;
  output_tokens = u.candidates_token_count;
  reasoning_tokens = u.thoughts_token_count;
  billable_output_tokens = add64 u.candidates_token_count u.thoughts_token_count;
  total_tokens = u.total_token_count;
  cache_read_tokens = (cache_split u.prompt_token_count u.cached_content_token_count (pos 0)).0;
}

-- The ID of a call: its name where it has none.
abbrev pub id_of : FunctionCall → String
id_of fc = if str_eq fc.id "" then fc.name else fc.id

-- `marshal` is json.Marshal of the arguments of a call.
module _ (marshal : Option Fields → Bytes) where
  abbrev pub call_of : FunctionCall → Bytes → ToolCall
  call_of fc signature = record {
    id = id_of fc;
    name = fc.name;
    parameters = marshal fc.args;
    provider_signature = signature;
  }

  -- The `switch` of `toChatResponse` on a part that is not nil.
  unfoldable pub shown : (thought : Bool) → Option FunctionCall → Part → List ContentPart
  shown Bool.true call p = []
  shown Bool.false (some fc) p = call_part (call_of fc p.thought_signature) ∷ []
  shown Bool.false none p = if str_eq p.text "" then [] else text_part p.text ∷ []

  unfoldable pub parts_of : Option Part → List ContentPart
  unfolding shown
  parts_of none = []
  parts_of (some p) = shown p.thought p.function_call p

  unfoldable pub all_parts : List (Option Part) → List ContentPart
  unfolding parts_of
  all_parts [] = []
  all_parts (p ∷ ps) = parts_of p ++ all_parts ps

  called : Option ToolCall → List ToolCall → List ToolCall
  called none calls = calls
  called (some c) calls = c ∷ calls

  -- The calls and the texts of the parts, which the response lists too.
  unfoldable pub calls_in : List ContentPart → List ToolCall
  unfolding called
  calls_in [] = []
  calls_in (p ∷ ps) = called p.tool_call (calls_in ps)

  unfoldable pub text_in : List ContentPart → String
  text_in [] = ""
  text_in (p ∷ ps) = append_text p.text (text_in ps)

  -- `toChatResponse`.
  unfoldable pub to_chat_response : GenerateResponse → ChatResponse
  unfolding all_parts calls_in text_in usage_counts
  to_chat_response result =
      let cand = first_candidate result.candidates in
      let parts = all_parts cand.parts in
      record {
        message = record { role = Role.assistant; content = parts };
        text = text_in parts;
        tool_calls = calls_in parts;
        stop_reason = cand.finish_reason;
        usage = record (usage_counts result.usage_metadata) {
          provider_request_id = result.response_id;
        };
      }
