-- ===== src/Tests/ProviderRuns.antt =====
-- llms/providers: runs of the conversions on concrete inputs.
use maestro_llms.Base.{
  ℕ, ◌+◌, ◌≤◌, ◌≡◌, ◌≢◌, ◌⊎◌, refl, String, true, false, Option, none, some, [], ◌∷◌, ok, arith,
  if◌then◌else◌, str_eq, str_eq_iff,
}
use maestro_llms.Base.Int.{pos}
use maestro_llms.Llms.Message.{Bytes, ChatRequest, ContentPart, Role, ToolChoiceType, text_part}
use maestro_llms.Llms.Reasoning.{reasoning_from}
use maestro_llms.Providers.Requests.{join_system}
use maestro_llms.Providers.Json
use maestro_llms.Providers.Json.{Json, Fields}
use maestro_llms.Providers.ExtraParams.{merge, overrides}
use maestro_llms.Providers.ExtraParams.Merging.{find, laid_over}
use maestro_llms.Providers.ExtraParams.Paths.{merge-overrides}
use maestro_llms.Providers.Ollama.{WireResponse, WireToolCall, message_parts, to_chat_response}
use maestro_llms.Providers.Ollama.RoundTrip.{replayed, to_chat_response-message_parts}
use maestro_llms.Providers.Anthropic.{
  Block, CacheBudget, ThinkingCodec, ThinkingWire, ThinkingType, Side, blocks_for_parts,
}
use maestro_llms.Providers.Anthropic.Params.{Params, to_params}
use maestro_llms.Providers.Anthropic.Markers.{message_marks, system_marks}
use maestro_llms.Providers.Anthropic.Budget.{to_params-marks}
use maestro_llms.Providers.Anthropic.Responses.{ResponseBlock, WireMessage, to_response}
use maestro_llms.Providers.Anthropic.Replay.{sent_back, to_response-blocks_for_parts}

-- {"a": {"x": 1, "y": 2}} and {"a": {"y": 3}}
abbrev one_field : String → Json → Fields
one_field k v = Fields.field k v Fields.no_fields

abbrev body : Fields
body =
    one_field "a"
      (Json.object (Fields.field "x" (Json.number "1") (one_field "y" (Json.number "2"))))

abbrev extra : Fields
extra = one_field "a" (Json.object (one_field "y" (Json.number "3")))

merge-overrides_example : find (Json.object (merge body extra)) ("a" ∷ "y" ∷ []) ≡ (
    if overrides extra ("a" ∷ "y" ∷ [])
    then laid_over
        (find (Json.object body) ("a" ∷ "y" ∷ []))
        (find (Json.object extra) ("a" ∷ "y" ∷ []))
    else find (Json.object body) ("a" ∷ "y" ∷ []))
unfolding Json.get
merge-overrides_example = merge-overrides ("y" ∷ []) body extra "a" (refl, (refl, tt), tt)

abbrev mark_of : ℕ → String
mark_of i = "0"

abbrev called : WireToolCall
called = record { id = ""; function = record { name = "look"; arguments = [] } }

abbrev answer : WireResponse
answer = record {
  model = "m";
  message = record {
    role = "assistant";
    content = "hello";
    tool_calls = called ∷ [];
    tool_call_id = "";
  };
  done_reason = "";
  error = "";
  prompt_eval_count = pos 3;
  eval_count = pos 4;
  done = true;
}

to_chat_response-message_parts_example :
    message_parts (to_chat_response mark_of answer).message ≡ ok (replayed mark_of answer)
to_chat_response-message_parts_example = to_chat_response-message_parts mark_of answer

-- An encoding of one thinking block.
abbrev thought : ThinkingWire
thought = record {
  type = ThinkingType.thinking;
  thinking = "why";
  signature = "sig";
  data_text = "";
}

abbrev one_codec : ThinkingCodec
one_codec = record { marshal = λ w. some (1 ∷ []); unmarshal = λ bs. some thought }

abbrev thoughtful : WireMessage
thoughtful = record {
  id = "r1";
  content =
      ResponseBlock.thinking "why" "sig"
      ∷ ResponseBlock.text "so"
      ∷ ResponseBlock.other "ping"
      ∷ ResponseBlock.tool_use "c1" "look" []
      ∷ [];
  stop_reason = "tool_use";
  usage = record {
    input_tokens = pos 5;
    output_tokens = pos 9;
    thinking_tokens = some (pos 4);
    cache_read_input_tokens = pos 0;
    cache_creation_input_tokens = pos 0;
  };
}

abbrev no_budget : CacheBudget
no_budget = record { skip = 0; seen = 0 }

filled_text : (s : String) → str_eq s "" ≡ false → s ≢ ""
filled_text s h e = absurd (ground (arith, h, (str_eq_iff s "").1 e))

to_response-blocks_for_parts_example :
    blocks_for_parts one_codec (to_response one_codec thoughtful).message.content no_budget
    ≡ ok (record { results = []; others = sent_back thoughtful.content; budget = no_budget })
to_response-blocks_for_parts_example =
    to_response-blocks_for_parts one_codec thoughtful no_budget
      (filled_text "sig" refl, (1 ∷ [], refl, refl), (filled_text "so" refl, tt))

abbrev no_codec : ThinkingCodec
no_codec = record { marshal = λ w. none; unmarshal = λ bs. none }

abbrev marked_text : String → ContentPart
marked_text t = record (text_part t) { cache_breakpoint = true }

abbrev five_marks : ChatRequest
five_marks = record {
  system = marked_text "be brief" ∷ [];
  messages =
      record {
        role = Role.user;
        content =
            marked_text "a"
            ∷ marked_text "b"
            ∷ marked_text "c"
            ∷ marked_text "d"
            ∷ marked_text "e"
            ∷ [];
      }
      ∷ [];
  tools = [];
  tool_choice = record { type = ToolChoiceType.unset; name = "" };
  purpose = "";
  max_tokens = pos 0;
}

abbrev no_parser : Bytes → Option Json
no_parser bs = none

abbrev three_of_five : Params
three_of_five = record {
  model = "m";
  messages =
      record {
        role = Side.user;
        content =
            Block.text "a" false
            ∷ Block.text "b" false
            ∷ Block.text "c" true
            ∷ Block.text "d" true
            ∷ Block.text "e" true
            ∷ [];
      }
      ∷ [];
  max_tokens = pos 4096;
  system = some ("be brief", true);
  tools = [];
  tool_choice = none;
}

three_marked : to_params no_codec no_parser "m" five_marks ≡ ok three_of_five
unfolding to_params join_system reasoning_from
three_marked = refl

to_params-marks_example :
    (message_marks three_of_five.messages ≡ 3)
    × ((three_of_five.system ≡ none) ⊎ (system_marks three_of_five.system ≡ 1))
    × (message_marks three_of_five.messages + system_marks three_of_five.system ≤ 4)
to_params-marks_example =
    to_params-marks no_codec no_parser "m" five_marks three_of_five three_marked
