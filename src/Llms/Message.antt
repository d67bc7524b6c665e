-- ===== src/Llms/Message.antt =====
-- llms/message.go, llms/tool.go, llms/chat.go: the conversation model. A string type with constants
-- is a data type with a constructor for each constant and `other` for any further text; a nil
-- pointer is `none`; bytes are numbers.
use maestro_llms.Base.{ℕ, String, Bool, false, Option, none, some, List, [], ◌∷◌, map}
use maestro_llms.Base.Int.{ℤ}
use maestro_llms.Llms.Usage.{Usage}

pub data Role : Type 0 where
  user assistant tool : Role
  other : String → Role

pub data ContentPartType : Type 0 where
  text tool_call tool_result reasoning : ContentPartType
  other : String → ContentPartType

abbrev pub Bytes : Type 0
Bytes = List ℕ

pub record ToolCall : Type 0 where
  pub id : String
  pub name : String
  pub parameters : Bytes
  pub provider_signature : Bytes

pub record ToolResult : Type 0 where
  pub tool_call_id : String
  pub content : String
  pub is_error : Bool

pub record Reasoning : Type 0 where
  pub provider : String
  pub text : String
  pub provider_data : Bytes

pub record ContentPart : Type 0 where
  pub type : ContentPartType
  pub text : String
  pub tool_call : Option ToolCall
  pub tool_result : Option ToolResult
  pub reasoning : Option Reasoning
  pub cache_breakpoint : Bool

pub record Message : Type 0 where
  pub role : Role
  pub content : List ContentPart

abbrev pub is_user : Role → Bool
is_user Role.user = Bool.true
is_user _ = false

abbrev pub is_assistant : Role → Bool
is_assistant Role.assistant = Bool.true
is_assistant _ = false

abbrev pub is_tool : Role → Bool
is_tool Role.tool = Bool.true
is_tool _ = false

abbrev pub is_text_type : ContentPartType → Bool
is_text_type ContentPartType.text = Bool.true
is_text_type _ = false

abbrev pub is_reasoning_type : ContentPartType → Bool
is_reasoning_type ContentPartType.reasoning = Bool.true
is_reasoning_type _ = false

-- `Text`, `UserText` and `AssistantText`.
abbrev pub text_part : String → ContentPart
text_part s = record {
  type = ContentPartType.text;
  text = s;
  tool_call = none;
  tool_result = none;
  reasoning = none;
  cache_breakpoint = false;
}

abbrev pub user_text : String → Message
user_text s = record { role = Role.user; content = text_part s ∷ [] }

abbrev pub assistant_text : String → Message
assistant_text s = record { role = Role.assistant; content = text_part s ∷ [] }

abbrev pub result_part : ToolResult → ContentPart
result_part r = record {
  type = ContentPartType.tool_result;
  text = "";
  tool_call = none;
  tool_result = some r;
  reasoning = none;
  cache_breakpoint = false;
}

-- The part of a tool call.
abbrev pub call_part : ToolCall → ContentPart
call_part c = record {
  type = ContentPartType.tool_call;
  text = "";
  tool_call = some c;
  tool_result = none;
  reasoning = none;
  cache_breakpoint = false;
}

-- `ToolResultMessage`.
abbrev pub tool_result_message : List ToolResult → Message
tool_result_message results = record { role = Role.tool; content = map result_part results }

pub data ToolChoiceType : Type 0 where
  unset auto never required tool : ToolChoiceType
  other : String → ToolChoiceType

pub record ToolChoice : Type 0 where
  pub type : ToolChoiceType
  pub name : String

-- `ToolChoice.RequiresTools`.
abbrev pub requires_tools : ToolChoiceType → Bool
requires_tools ToolChoiceType.required = Bool.true
requires_tools ToolChoiceType.tool = Bool.true
requires_tools _ = false

abbrev pub is_named : ToolChoiceType → Bool
is_named ToolChoiceType.tool = Bool.true
is_named _ = false

abbrev pub is_none_choice : ToolChoiceType → Bool
is_none_choice ToolChoiceType.never = Bool.true
is_none_choice _ = false

pub record ToolDefinition : Type 0 where
  pub name : String
  pub description : String
  pub input_schema : Bytes

-- `ChatRequest`, but for the fields that the modelled code passes through unread (Temperature,
-- Metadata, Reasoning, ProviderParams).
pub record ChatRequest : Type 0 where
  pub system : List ContentPart
  pub messages : List Message
  pub tools : List ToolDefinition
  pub tool_choice : ToolChoice
  pub purpose : String
  pub max_tokens : ℤ

-- `ChatResponse`, but for AppliedReasoning and Raw.
pub record ChatResponse : Type 0 where
  pub message : Message
  pub text : String
  pub tool_calls : List ToolCall
  pub stop_reason : String
  pub usage : Usage
