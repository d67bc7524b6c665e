-- ===== src/Tests/ToolloopRuns.antt =====
-- llms/toolloop/run.go: a run of two turns, of which the first calls a tool.
use maestro_llms.Base.{◌≡◌, refl, subst, true, false, none, some, List, [], ◌∷◌, arith, ok}
use maestro_llms.Base.Int.{pos, add64, wrap64, ◌+ℤ◌}
use maestro_llms.Llms.Errors.{GoError, is_nil}
use maestro_llms.Llms.Usage.{zero_usage}
use maestro_llms.Llms.Message.{
  Message, Role, ContentPart, ContentPartType, ToolCall, ToolChoiceType, ChatRequest, ChatResponse,
  user_text, assistant_text, tool_result_message,
}
use maestro_llms.Middleware.Validation.{
  validate_messages, check_messages, check_message, check_content, has_non_reasoning,
  validate_parts, validate_part, step,
}
use maestro_llms.Middleware.Validation.Pairing.{validate_messages-Conversation}
use maestro_llms.Toolloop.Types.{Ambient, Config, Tool, CtxState, Outcome, OutcomeKind, no_usage}
use maestro_llms.Toolloop.Calls.{
  execute_calls, attempt, dispatch, call_error, is_empty_response, says_nothing,
}
use maestro_llms.Toolloop.Calls.Answering.{Answers, execute_calls-Answers}
use maestro_llms.Toolloop.Compaction.{send, send_loop, send_round, add_usage, is_zero_usage}
use maestro_llms.Toolloop.Config.{
  validate_config, check_tools, effective_choice, is_zero_tool_choice, is_known_tool_choice_type,
  index_tools, find_tool,
}
use maestro_llms.Toolloop.Stops.{classify_stop}
use maestro_llms.Toolloop.Compaction.Sending.{Delivers, send-Delivers}
use maestro_llms.Toolloop.Turns.{GoodResponse, Sendable}
use maestro_llms.Toolloop.Run.{
  run, loop, round, on_response, run_calls, after_calls, stop_with, at_limit, effective_max,
}
use maestro_llms.Toolloop.Run.Transcript.{run-validate_messages}
use maestro_llms.Toolloop.Run.Limit.{Ends, run-Ends}

-- The model asks for a tool first, and answers then.
data Stage : Type 0 where
  asking answering : Stage

abbrev ambient : Ambient Stage
ambient = record { ctx = λ w. CtxState.live; now = λ w. pos 0; quote = λ s. s }

abbrev the_call : ToolCall
the_call = record { id = "c1"; name = "read"; parameters = []; provider_signature = [] }

abbrev call_part : ContentPart
call_part = record {
  type = ContentPartType.tool_call;
  text = "";
  tool_call = some the_call;
  tool_result = none;
  reasoning = none;
  cache_breakpoint = false;
}

abbrev call_response : ChatResponse
call_response = record {
  message = record { role = Role.assistant; content = call_part ∷ [] };
  text = "";
  tool_calls = the_call ∷ [];
  stop_reason = "tool_use";
  usage = zero_usage;
}

abbrev answer_response : ChatResponse
answer_response = record {
  message = assistant_text "done";
  text = "done";
  tool_calls = [];
  stop_reason = "end_turn";
  usage = zero_usage;
}

abbrev complete : ChatRequest → Stage → ChatResponse × GoError × Stage
complete req asking = (call_response, GoError.nil, answering)
complete req answering = (answer_response, GoError.nil, answering)

abbrev read_tool : Tool Stage
read_tool = record {
  execute =
      some
        (λ call w. (record { content = "text"; is_error = false; stop = false }, GoError.nil, w));
  definition = record { name = "read"; description = ""; input_schema = [] };
}

abbrev config : Config Stage
config = record {
  request = record {
    system = [];
    messages = user_text "task" ∷ [];
    tools = [];
    tool_choice = record { type = ToolChoiceType.unset; name = "" };
    purpose = "";
    max_tokens = pos 0;
  };
  client = some complete;
  compact = none;
  on_iteration = none;
  on_tool_call = none;
  tool_choice = record { type = ToolChoiceType.unset; name = "" };
  tools = read_tool ∷ [];
  max_iterations = pos 2;
}

call_good : GoodResponse call_response
call_good = record {
  role = refl;
  parts = ((the_call, refl, (λ e. cc), refl), tt);
  mirror = refl;
  distinct = λ id. ground arith;
}

answer_good : GoodResponse answer_response
answer_good = record { role = refl; parts = (tt, tt); mirror = refl; distinct = λ id. ground arith }

complete_good :
    (req : ChatRequest) (w : Stage)
    → is_nil (complete req w).1 ≡ true
    → GoodResponse (complete req w).0
complete_good req asking h = call_good
complete_good req answering h = answer_good

some_of :
    {c : ChatRequest → Stage → ChatResponse × GoError × Stage}
    → some complete ≡ some c
    → complete ≡ c
some_of e = cc

run-Ends_example : Ends (effective_max config.max_iterations) 0 (run ambient 2 config asking)
unfolding effective_max
run-Ends_example = run-Ends ambient config 2 asking (omega arith) (omega arith) (omega arith)

execute_calls-Answers_example :
    Answers
      (the_call ∷ [])
      (execute_calls ambient config call_response
        (pos 1)
        (read_tool ∷ [])
        []
        zero_usage
        (the_call ∷ [])
        asking).0
execute_calls-Answers_example =
    execute_calls-Answers ambient config call_response (pos 1) (read_tool ∷ []) [] zero_usage
      (the_call ∷ []) asking

abbrev answered_transcript : List Message
answered_transcript =
    user_text "task"
    ∷ call_response.message
    ∷ tool_result_message (record { tool_call_id = "c1"; content = "text"; is_error = false } ∷ [])
    ∷ answer_response.message
    ∷ []

abbrev outcome : Outcome
outcome = record {
  response = answer_response;
  err = GoError.nil;
  terminal_call = none;
  total_usage = zero_usage;
  compaction_usage = zero_usage;
  terminal_result = none;
  kind = OutcomeKind.final_answer;
  messages = answered_transcript;
  iterations = pos 1;
  compactions = 0;
}

valid_task : validate_messages config.request.messages ≡ ok tt
unfolding validate_messages check_messages check_message check_content has_non_reasoning
    validate_parts validate_part step
valid_task = refl

runs : run ambient 2 config asking ≡ some (outcome, answering)
unfolding run loop round on_response run_calls after_calls stop_with at_limit effective_max
    validate_config check_tools effective_choice is_zero_tool_choice is_known_tool_choice_type
    index_tools find_tool send send_loop send_round classify_stop execute_calls attempt dispatch
    call_error is_empty_response says_nothing add_usage is_zero_usage add64 wrap64 ◌+ℤ◌
runs = refl

run-validate_messages_example : validate_messages outcome.messages ≡ ok tt
run-validate_messages_example =
    run-validate_messages ambient config 2 asking
      (λ c e req v h.
        subst (λ f. is_nil (f req v).1 ≡ true → GoodResponse (f req v).0) (some_of e)
          (complete_good req v) h)
      valid_task runs refl

send-Delivers_example :
    Delivers Sendable GoodResponse
      (send ambient complete zero_usage config.request none
        (record { usage = no_usage; count = 0 })
        asking).0
send-Delivers_example =
    send-Delivers ambient complete Sendable GoodResponse (λ msgs h. h) complete_good zero_usage
      config.request none (record { usage = no_usage; count = 0 }) asking
      ((validate_messages-Conversation config.request.messages).0 valid_task)
