-- ===== src/Providers/OpenaiCompat/Responses.antt =====
-- llms/providers/openaicompat/convert.go: from a ChatCompletion.
use maestro_llms.Base.{String, Option, none, some, List, [], ◌∷◌, ◌++◌, map, if◌then◌else◌, str_eq}
use maestro_llms.Base.Int.{ℤ, pos, max_ℤ, min_ℤ, sub64}
use maestro_llms.Llms.Message.{Role, ToolCall, ChatResponse, text_part, call_part}
use maestro_llms.Llms.Usage.{Usage, zero_usage, cache_split}
use maestro_llms.Providers.OpenaiCompat.{FunctionCall}

-- `CompletionUsage`: a field that is not valid, or that is absent, is none.
pub record WireUsage : Type 0 where
  pub completion_tokens : ℤ
  pub reasoning_tokens : ℤ
  pub prompt_tokens : ℤ
  pub total_tokens : ℤ
  pub cached_tokens : ℤ
  pub cache_write_tokens : Option ℤ
  pub created_cache_tokens : Option String

-- A choice: its message and its finish reason.
pub record WireChoice : Type 0 where
  pub content : String
  pub tool_calls : List FunctionCall
  pub finish_reason : String

pub record ChatCompletion : Type 0 where
  pub id : String
  pub choices : List WireChoice
  pub usage : WireUsage

abbrev pub neutral_call : FunctionCall → ToolCall
neutral_call c = record {
  id = c.id;
  name = c.name;
  parameters = c.arguments;
  provider_signature = [];
}

-- `atoi` is strconv.Atoi after strings.TrimSpace.
module _ (atoi : String → Option ℤ) where
  parsed : Option String → ℤ
  parsed none = pos 0
  parsed (some raw) = elim (atoi raw) [ none ↦ pos 0 | some n ↦ n ]

  written : Option ℤ → Option String → ℤ
  unfolding parsed
  written (some n) created = n
  written none created = parsed created

  -- `cacheWriteTokens`.
  unfoldable pub cache_write_tokens : WireUsage → ℤ
  unfolding written
  cache_write_tokens u = written u.cache_write_tokens u.created_cache_tokens

  -- `buildUsage`.
  unfoldable pub build_usage : ChatCompletion → Usage
  unfolding cache_write_tokens sub64
  build_usage resp =
      let u = resp.usage in
      let billable = u.completion_tokens in
      let reasoning = min_ℤ (max_ℤ u.reasoning_tokens (pos 0)) billable in
      let (read, write) = cache_split u.prompt_tokens u.cached_tokens (cache_write_tokens u) in
      record zero_usage {
        input_tokens = u.prompt_tokens;
        output_tokens = sub64 billable reasoning;
        reasoning_tokens = reasoning;
        billable_output_tokens = billable;
        total_tokens = u.total_tokens;
        cache_read_tokens = read;
        cache_write_tokens = write;
        provider_request_id = resp.id;
      }

  unfoldable pub response_of : Usage → List WireChoice → ChatResponse
  response_of usage [] = record {
    message = record { role = Role.assistant; content = [] };
    text = "";
    tool_calls = [];
    stop_reason = "";
    usage = usage;
  }
  response_of usage (c ∷ cs) =
      let calls = map neutral_call c.tool_calls in
      record {
        message = record {
          role = Role.assistant;
          content =
              (if str_eq c.content "" then [] else text_part c.content ∷ []) ++ map call_part calls;
        };
        text = c.content;
        tool_calls = calls;
        stop_reason = c.finish_reason;
        usage = usage;
      }

  -- `toResponse`.
  unfoldable pub to_response : ChatCompletion → ChatResponse
  unfolding response_of build_usage
  to_response resp = response_of (build_usage resp) resp.choices
