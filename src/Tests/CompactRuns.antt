-- ===== src/Tests/CompactRuns.antt =====
-- llms/toolloop/compact/compact.go: both policies on a conversation of three answers.
use maestro_llms.Base.{ℕ, ◌≡◌, refl, String, some, List, [], ◌∷◌, ok, append_text}
use maestro_llms.Base.Int.{pos}
use maestro_llms.Llms.Errors.{GoError}
use maestro_llms.Llms.Reasons.{CompactReason}
use maestro_llms.Llms.Usage.{zero_usage}
use maestro_llms.Llms.Message.{Message, ChatRequest, ChatResponse, user_text, assistant_text}
use maestro_llms.Llms.Reasoning.{without_reasoning, filter_reasoning, drop_count}
use maestro_llms.Middleware.Validation.{
  validate_messages, check_messages, check_message, check_content, has_non_reasoning,
  validate_parts, validate_part, step, step_assistant, open_calls, open_call,
}
use maestro_llms.Middleware.Validation.Conversation.{Conversation}
use maestro_llms.Middleware.Validation.Pairing.{validate_messages-Conversation}
use maestro_llms.Toolloop.Types.{CompactInput}
use maestro_llms.Toolloop.Compact.{
  keep_last, due, drops, kept, split, head_of, cut_of, back, starts_from, in_flight_prompt,
  is_summary, dropped, summarize, SummarizeConfig, summary_header,
}
use maestro_llms.Toolloop.Compact.Kept.{kept-Conversation}
use maestro_llms.Toolloop.Compact.Policy.{keep_last-validate_messages, summarize-validate_messages}

abbrev talk : List Message
talk =
    user_text "task"
    ∷ assistant_text "one"
    ∷ user_text "more"
    ∷ assistant_text "two"
    ∷ user_text "last"
    ∷ []

abbrev shortened : List Message
shortened = user_text "task" ∷ user_text "more" ∷ assistant_text "two" ∷ user_text "last" ∷ []

abbrev overflow : CompactInput
overflow = record {
  err = GoError.nil;
  reason = CompactReason.overflow;
  last_usage = zero_usage;
  messages = talk;
}

talk_valid : validate_messages talk ≡ ok tt
unfolding validate_messages check_messages check_message check_content has_non_reasoning
    validate_parts validate_part step step_assistant open_calls open_call
talk_valid = refl

keeps_one : (keep_last 1 (pos 0) overflow).messages ≡ some shortened
unfolding keep_last due drops kept split head_of cut_of back starts_from in_flight_prompt is_summary
    without_reasoning filter_reasoning drop_count
keeps_one = refl

keep_last-validate_messages_example : validate_messages shortened ≡ ok tt
keep_last-validate_messages_example =
    keep_last-validate_messages 1 (pos 0) overflow shortened talk_valid keeps_one

talk-Conversation : Conversation talk
talk-Conversation = ((validate_messages-Conversation talk).0 talk_valid).1

kept-Conversation_example : Conversation (kept (split talk 1) talk [])
kept-Conversation_example = kept-Conversation talk [] 1 talk-Conversation Conversation.done

-- A summarizer.
abbrev sums_up : ChatRequest → ℕ → ChatResponse × GoError × ℕ
sums_up req w = (
  record {
    message = assistant_text "short";
    text = "short";
    tool_calls = [];
    stop_reason = "end_turn";
    usage = zero_usage;
  },
  GoError.nil,
  w,
)

abbrev render : List Message → String
render ms = "the old turns"

abbrev trim : String → String
trim s = s

abbrev settings : SummarizeConfig
settings = record {
  prompt = "sum up";
  purpose = "summary";
  keep_turns = 1;
  at_tokens = pos 0;
  max_tokens = pos 0;
}

abbrev summed_up : List Message
summed_up =
    user_text "task"
    ∷ user_text (append_text summary_header "short")
    ∷ user_text "more"
    ∷ assistant_text "two"
    ∷ user_text "last"
    ∷ []

sums_one : (summarize sums_up render trim settings overflow 0).0.messages ≡ some summed_up
unfolding summarize due drops dropped kept split head_of cut_of back starts_from in_flight_prompt
    is_summary without_reasoning filter_reasoning drop_count
sums_one = refl

summarize-validate_messages_example : validate_messages summed_up ≡ ok tt
summarize-validate_messages_example =
    summarize-validate_messages sums_up render trim settings overflow 0 summed_up talk_valid
      sums_one
