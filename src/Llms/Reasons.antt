-- ===== src/Llms/Reasons.antt =====
-- What the text of an error says, as data: a constructor for each format string, with the values
-- that the text shows. From llms/error.go, llms/middleware/validation.go, llms/toolloop/run.go and
-- llms/toolloop/types.go.
use maestro_llms.Base.{ℕ, String, List}
use maestro_llms.Llms.Message.{Role, ContentPartType, ToolChoiceType}

-- `ErrorKind`.
pub data ErrorKind : Type 0 where
  config auth rate_limited timeout unavailable bad_request content_policy context_length unknown :
      ErrorKind
  other : String → ErrorKind

-- The reasons of a `ValidationError`. A list of texts is a set that the message shows sorted.
-- `nil_dereference` is no reason of the code: it stands for the panic of reading a nil payload.
pub data Invalid : Type 0 where
  system_not_text : ℕ → ContentPartType → Invalid
  no_messages : Invalid
  empty_assistant : ℕ → Invalid
  empty_content : ℕ → Role → Invalid
  tool_call_missing : ℕ → ℕ → Invalid
  tool_call_role : ℕ → ℕ → Role → Invalid
  reasoning_missing : ℕ → ℕ → Invalid
  reasoning_role : ℕ → ℕ → Role → Invalid
  tool_result_missing : ℕ → ℕ → Invalid
  tool_result_role : ℕ → ℕ → Role → Invalid
  unknown_content_type : ℕ → ℕ → ContentPartType → Invalid
  user_before_results : ℕ → List String → Invalid
  unknown_role : ℕ → Role → Invalid
  calls_without_results : ℕ → List String → Invalid
  duplicate_tool_call : ℕ → String → Invalid
  not_tool_result : ℕ → Invalid
  duplicate_tool_result : ℕ → String → Invalid
  orphaned_tool_result : ℕ → String → Invalid
  ends_with_calls : List String → Invalid
  nil_dereference : Invalid

-- The reasons of a `ConfigError`.
pub data BadConfig : Type 0 where
  client_required messages_required request_tools_set : BadConfig
  tool_name_empty : ℕ → BadConfig
  execute_nil : ℕ → String → BadConfig
  duplicate_tool_name : String → BadConfig
  both_tool_choices : BadConfig
  unknown_tool_choice : ToolChoiceType → BadConfig
  choice_requires_tools : ToolChoiceType → BadConfig
  choice_names_unknown_tool : String → BadConfig

-- `CompactReason`.
pub data CompactReason : Type 0 where
  before_turn overflow : CompactReason
