-- ===== src/Providers/Openai.antt =====
-- llms/providers/openai/chatconvert.go: a request for the Responses API. The SDK's
-- types are data types of their own here, an unset string is the empty text, and the parser of a
-- tool's schema is an argument. A write to a nil map panics, which is a failure of its own.
pub mod Responses
pub mod RoundTrip
use maestro_llms.Base.{
  String, Bool, Option, none, some, List, [], ◌∷◌, ◌++◌, Result, ok, err, ◌>>=◌, ◌>>◌, refuse,
  is_empty, if◌then◌else◌, str_eq,
}
use maestro_llms.Base.Int.{ℤ, pos, ltb_ℤ}
use maestro_llms.Llms.Message.{
  Bytes, Role, ContentPart, ContentPartType, Message, ToolCall, ToolResult, ToolChoice,
  ToolChoiceType, ToolDefinition, ChatRequest, requires_tools,
}
use maestro_llms.Llms.Reasoning.{reasoning_from}
use maestro_llms.Providers.Json
use maestro_llms.Providers.Json.{Json, Fields, get, set}
use maestro_llms.Providers.Requests.{BadRequest, Converted, join_system}
use maestro_llms.Providers.OpenaiCompat.{FunctionTool, bad_type, with_required}

-- `ResponseInputItemUnionParam`.
pub data InputItem : Type 0 where
  message : (text role : String) → InputItem
  function_call : (arguments : Bytes) (call_id name : String) → InputItem
  function_call_output : (output call_id : String) → InputItem

-- `systemText`.
unfoldable pub system_text : List ContentPart → Converted String
system_text = join_system ""

-- `roleFor`.
abbrev pub role_for : Role → Option String
role_for Role.user = some "user"
role_for Role.assistant = some "assistant"
role_for _ = none

text_item : Role → String → Option String → Converted InputItem
text_item r t none = err (BadRequest.part_not_valid ContentPartType.text r)
text_item r t (some role) = ok (InputItem.message t role)

-- The `switch` of `buildInput`.
unfoldable pub item_type : ContentPartType → Role → ContentPart → Converted InputItem
unfolding text_item
item_type ContentPartType.text r p =
    if str_eq p.text "" then err BadRequest.empty_text else text_item r p.text (role_for r)
item_type ContentPartType.tool_call r p = elim p.tool_call [
  | none ↦ err BadRequest.nil_tool_call
  | some c ↦ ok (InputItem.function_call c.parameters c.id c.name)
]
item_type ContentPartType.tool_result r p = elim p.tool_result [
  | none ↦ err BadRequest.nil_tool_result
  | some x ↦ ok (InputItem.function_call_output x.content x.tool_call_id)
]
item_type ty r p = err (BadRequest.unknown_part ty)

-- The items of a message in `buildInput`.
unfoldable pub message_items : Role → List ContentPart → Converted (List InputItem)
unfolding item_type
message_items r [] = ok []
message_items r (p ∷ ps) = do
  item ← item_type p.type r p
  rest ← message_items r ps
  ok (item ∷ rest)

unfoldable pub all_items : List Message → Converted (List InputItem)
unfolding message_items
all_items [] = ok []
all_items (m ∷ ms) = do
  items ← message_items m.role m.content
  rest ← all_items ms
  ok (items ++ rest)

-- `buildInput`.
unfoldable pub build_input : List Message → Converted (List InputItem)
unfolding all_items
build_input messages = do
  items ← all_items (reasoning_from "openai" messages)
  refuse (is_empty items) BadRequest.no_messages
  ok items

-- How a conversion fails: by an error, or by a panic.
pub data Failure : Type 0 where
  refused : BadRequest → Failure
  panicked : Failure

abbrev checked : {A : Type 0} → Converted A → Result Failure A
checked (ok x) = ok x
checked (err e) = err (Failure.refused e)

-- `ResponseNewParamsToolChoiceUnion`.
pub data Choice : Type 0 where
  mode : String → Choice
  function_tool : String → Choice

-- `toolChoice`.
unfoldable pub tool_choice : ToolChoice → List ToolDefinition → Converted (Option Choice)
tool_choice choice tools =
    if is_empty tools
    then (if requires_tools choice.type
        then err (BadRequest.choice_needs_tools choice.type)
        else ok none)
    else elim choice.type [
      | ToolChoiceType.auto ↦ ok (some (Choice.mode "auto"))
      | ToolChoiceType.never ↦ ok (some (Choice.mode "none"))
      | ToolChoiceType.required ↦ ok (some (Choice.mode "required"))
      | ToolChoiceType.tool ↦
          if str_eq choice.name ""
          then err BadRequest.choice_needs_name
          else ok (some (Choice.function_tool choice.name))
      | _ ↦ ok none
    ]

-- `ResponseNewParams`, but for the temperature and the reasoning effort.
pub record Params : Type 0 where
  pub model : String
  pub input : List InputItem
  pub instructions : String
  pub max_output_tokens : Option ℤ
  pub tools : List FunctionTool
  pub tool_choice : Option Choice

module _ (parse : Bytes → Option Json) where
  -- The parameters of a tool in `buildTools`.
  unfoldable pub tool_parameters : ToolDefinition → Result Failure Fields
  unfolding bad_type with_required get set
  tool_parameters t =
      if is_empty t.input_schema
      then ok (Fields.field "type" (Json.text "object") Fields.no_fields)
      else elim (parse t.input_schema) [
        | some (Json.object raw) ↦
            let params = set raw "type" (Json.text "object") in
            if bad_type (get raw "type")
            then err (Failure.refused (BadRequest.schema_type t.name))
            else ok (with_required params (get params "required"))
        | some Json.null ↦ err Failure.panicked
        | _ ↦ err (Failure.refused (BadRequest.schema_not_json t.name))
      ]

  -- `buildTools`.
  unfoldable pub build_tools : List ToolDefinition → Result Failure (List FunctionTool)
  unfolding tool_parameters
  build_tools [] = ok []
  build_tools (t ∷ ts) = do
    params ← tool_parameters t
    rest ← build_tools ts
    ok (record { name = t.name; description = t.description; parameters = params } ∷ rest)

  -- `toParams`.
  unfoldable pub to_params : String → ChatRequest → Result Failure Params
  unfolding system_text build_input build_tools tool_choice
  to_params model req = do
    sys ← checked (system_text req.system)
    items ← checked (build_input req.messages)
    tools ← build_tools req.tools
    ch ← checked (tool_choice req.tool_choice req.tools)
    ok (record {
      model = model;
      input = items;
      instructions = sys;
      max_output_tokens = if ltb_ℤ (pos 0) req.max_tokens then some req.max_tokens else none;
      tools = tools;
      tool_choice = ch;
    })
