-- ===== src/Tests/CompletionRuns.antt =====
-- llms/providers: runs of the conversions of openaicompat, openai and google on concrete inputs.
use maestro_llms.Base.{suc, ◌≡◌, refl, String, true, Option, none, some, [], ◌∷◌, ok, arith}
use maestro_llms.Base.Int.{ℤ, pos, ◌≤ℤ◌, ◌+ℤ◌, max_ℤ}
use maestro_llms.Llms.Message.{Bytes}
use maestro_llms.Providers.Json.{Json, Fields}
use maestro_llms.Providers.Google.{Part, no_part, raw_to_map, message_parts as google_parts}
use maestro_llms.Providers.Google.Responses.{
  Candidate, GenerateResponse, to_chat_response as google_response,
}
use maestro_llms.Providers.Google.Replay.{
  sent_back as google_sent_back, message_parts-to_chat_response,
}
use maestro_llms.Providers.Openai.{message_items}
use maestro_llms.Providers.Openai.Responses.{
  OutputContent, OutputItem, Response, to_chat_response as openai_response,
}
use maestro_llms.Providers.Openai.RoundTrip.{
  sent_back as openai_sent_back, to_chat_response-message_items,
}
use maestro_llms.Providers.OpenaiCompat.{assistant_message}
use maestro_llms.Providers.OpenaiCompat.Responses.{
  ChatCompletion, WireChoice, build_usage as compat_usage, to_response as compat_response,
}
use maestro_llms.Providers.OpenaiCompat.RoundTrip.{
  to_response-assistant_message, replayed as compat_replayed,
}
use maestro_llms.Providers.OpenaiCompat.Usages.{build_usage-splits}

abbrev body : Fields
body = Fields.field "x" (Json.number "1") Fields.no_fields

-- A completion that reports more reasoning than it bills.
abbrev choice : WireChoice
choice = record {
  content = "hello";
  tool_calls = record { id = "c1"; name = "look"; arguments = [] } ∷ [];
  finish_reason = "length";
}

abbrev cut_off : ChatCompletion
cut_off = record {
  id = "r1";
  choices = choice ∷ [];
  usage = record {
    completion_tokens = pos 80;
    reasoning_tokens = pos 82;
    prompt_tokens = pos 10;
    total_tokens = pos 90;
    cached_tokens = pos 7;
    cache_write_tokens = none;
    created_cache_tokens = some "5";
  };
}

abbrev five : String → Option ℤ
five s = some (pos 5)

to_response-assistant_message_example :
    assistant_message (compat_response five cut_off).message.content
    ≡ compat_replayed choice.content choice.tool_calls
to_response-assistant_message_example = to_response-assistant_message five cut_off choice [] refl

build_usage-splits_example :
    let u = compat_usage five cut_off in
    (pos 0 ≤ℤ u.reasoning_tokens)
    × (pos 0 ≤ℤ u.output_tokens)
    × (u.output_tokens +ℤ u.reasoning_tokens ≡ pos 80)
    × (u.billable_output_tokens ≡ pos 80)
    × (pos 0 ≤ℤ u.cache_read_tokens)
    × (pos 0 ≤ℤ u.cache_write_tokens)
    × (u.cache_read_tokens +ℤ u.cache_write_tokens ≤ℤ max_ℤ u.input_tokens (pos 0))
build_usage-splits_example =
    build_usage-splits five cut_off (omega arith, omega arith) (omega arith)
      (omega arith, omega arith)

abbrev put_out : Response
put_out = record {
  id = "r1";
  status = "completed";
  incomplete_reason = "";
  output =
      OutputItem.other "reasoning"
      ∷ OutputItem.message (
          OutputContent.output_text ""
          ∷ OutputContent.output_text "so"
          ∷ OutputContent.other "refusal"
          ∷ [])
      ∷ OutputItem.function_call "c1" "look" []
      ∷ [];
  usage = record {
    input_tokens = pos 10;
    output_tokens = pos 9;
    total_tokens = pos 19;
    reasoning_tokens = pos 4;
    cached_tokens = pos 0;
    cache_write_tokens = pos 0;
  };
}

to_chat_response-message_items_example :
    message_items (openai_response put_out).message.role (openai_response put_out).message.content
    ≡ ok (openai_sent_back put_out.output)
to_chat_response-message_items_example = to_chat_response-message_items put_out

-- Encodings of no arguments and of one.
abbrev marshal_two : Option Fields → Bytes
marshal_two none = 0 ∷ []
marshal_two (some _) = 1 ∷ []

abbrev unmarshal_two : Bytes → Option (Option Fields)
unmarshal_two (suc n ∷ bs) = some (some body)
unmarshal_two bs = some none

abbrev signed : Part
signed = record no_part {
  function_call = some (record { id = ""; name = "look"; args = some body });
  thought_signature = 7 ∷ [];
}

abbrev generated : Candidate
generated = record {
  finish_reason = "STOP";
  parts =
      some (record no_part { text = "why"; thought = true })
      ∷ none
      ∷ some (record no_part { text = "so" })
      ∷ some signed
      ∷ [];
}

abbrev gemini : GenerateResponse
gemini = record { candidates = some generated ∷ []; usage_metadata = none; response_id = "r1" }

message_parts-to_chat_response_example :
    google_parts unmarshal_two [] (google_response marshal_two gemini).message.content
    ≡ ok (google_sent_back generated.parts)
unfolding raw_to_map
message_parts-to_chat_response_example =
    message_parts-to_chat_response unmarshal_two marshal_two gemini [] (tt, (tt, (refl, tt)))
