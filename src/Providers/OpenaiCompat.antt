-- ===== src/Providers/OpenaiCompat.antt =====
-- llms/providers/openaicompat/convert.go: the conversion to and from Chat Completions. The SDK's
-- types are data types of their own here, an unset string is the empty text, and the parser of a
-- tool's schema is an argument.
pub mod Responses
pub mod RoundTrip
pub mod Usages
use maestro_llms.Base.{
  String, Bool, true, false, not, ◌&&◌, Option, none, some, List, [], ◌∷◌, ◌++◌, Result, ok, err,
  ◌>>=◌, ◌>>◌, refuse, is_empty, if◌then◌else◌, str_eq,
}
use maestro_llms.Base.Int.{ℤ, pos, ltb_ℤ}
use maestro_llms.Llms.Message.{
  Bytes, Role, ContentPart, ContentPartType, Message, ToolCall, ToolResult, ToolChoice,
  ToolChoiceType, ToolDefinition, ChatRequest, is_text_type, requires_tools,
}
use maestro_llms.Llms.Reasoning.{reasoning_from}
use maestro_llms.Providers.Json
use maestro_llms.Providers.Json.{Json, Items, Fields, get, set}
use maestro_llms.Providers.Requests.{BadRequest, Converted, join_system, separated}

-- `ChatCompletionMessageFunctionToolCallParam`.
pub record FunctionCall : Type 0 where
  pub id : String
  pub name : String
  pub arguments : Bytes

-- `ChatCompletionMessageParamUnion`.
pub data ChatMessage : Type 0 where
  system user : String → ChatMessage
  assistant : (content : String) (tool_calls : List FunctionCall) → ChatMessage
  tool : (content tool_call_id : String) → ChatMessage

-- `systemText`.
unfoldable pub system_text : List ContentPart → Converted String
system_text = join_system ""

-- The loop of `joinTextParts`.
unfoldable pub join_text : Role → String → List ContentPart → Converted String
join_text role acc [] = ok acc
join_text role acc (p ∷ ps) =
    let rest = join_text role (separated acc p.text) ps in
    if not (is_text_type p.type)
    then err (BadRequest.not_text_only role)
    else if str_eq p.text ""
    then err (BadRequest.empty_text_part role)
    else rest

-- `joinTextParts`.
unfoldable pub join_text_parts : Role → List ContentPart → Converted String
unfolding join_text
join_text_parts role [] = err (BadRequest.empty_content role)
join_text_parts role (p ∷ ps) = join_text role "" (p ∷ ps)

-- The text and the calls of `assistantMessage`.
pub record Spoken : Type 0 where
  pub text : String
  pub calls : List FunctionCall

abbrev pub nothing_spoken : Spoken
nothing_spoken = record { text = ""; calls = [] }

abbrev pub function_call : ToolCall → FunctionCall
function_call c = record { id = c.id; name = c.name; arguments = c.parameters }

-- The `switch` of `assistantMessage`.
unfoldable pub speak_type : ContentPartType → ContentPart → Spoken → Converted Spoken
speak_type ContentPartType.text p s =
    if str_eq p.text ""
    then err (BadRequest.empty_text_part Role.assistant)
    else ok (record s { text = separated s.text p.text })
speak_type ContentPartType.tool_call p s = elim p.tool_call [
  | none ↦ err BadRequest.nil_tool_call
  | some c ↦ ok (record s { calls = s.calls ++ function_call c ∷ [] })
]
speak_type ty p s = err (BadRequest.part_not_valid ty Role.assistant)

unfoldable pub speak : List ContentPart → Spoken → Converted Spoken
unfolding speak_type
speak [] s = ok s
speak (p ∷ ps) s = speak_type p.type p s >>= speak ps

-- `assistantMessage`.
unfoldable pub assistant_message : List ContentPart → Converted ChatMessage
unfolding speak
assistant_message parts = do
  refuse (is_empty parts) (BadRequest.empty_content Role.assistant)
  s ← speak parts nothing_spoken
  refuse (str_eq s.text "" && is_empty s.calls) BadRequest.nothing_said
  ok (ChatMessage.assistant s.text s.calls)

tool_message : ContentPartType → Option ToolResult → Converted ChatMessage
tool_message ContentPartType.tool_result (some r) = ok (ChatMessage.tool r.content r.tool_call_id)
tool_message _ _ = err BadRequest.not_only_results

-- The messages of a message of the tool role: one for each result.
unfoldable pub tool_messages : List ContentPart → Converted (List ChatMessage)
unfolding tool_message
tool_messages [] = ok []
tool_messages (p ∷ ps) = do
  m ← tool_message p.type p.tool_result
  rest ← tool_messages ps
  ok (m ∷ rest)

-- The `switch` of `buildMessages` on the role.
unfoldable pub role_messages : Role → List ContentPart → Converted (List ChatMessage)
unfolding join_text_parts assistant_message tool_messages
role_messages Role.user parts = do
  text ← join_text_parts Role.user parts
  ok (ChatMessage.user text ∷ [])
role_messages Role.assistant parts = do m ← assistant_message parts; ok (m ∷ [])
role_messages Role.tool parts = tool_messages parts
role_messages (Role.other r) parts = err (BadRequest.unknown_role (Role.other r))

unfoldable pub all_messages : List Message → Converted (List ChatMessage)
unfolding role_messages
all_messages [] = ok []
all_messages (m ∷ ms) = do
  first ← role_messages m.role m.content
  rest ← all_messages ms
  ok (first ++ rest)

-- `buildMessages`.
unfoldable pub build_messages : List Message → String → Converted (List ChatMessage)
unfolding all_messages
build_messages messages sys = do
  ms ← all_messages (reasoning_from "openaicompat" messages)
  refuse (is_empty ms) BadRequest.no_messages
  ok (if str_eq sys "" then ms else ChatMessage.system sys ∷ ms)

-- `ChatCompletionToolChoiceOptionUnionParam`.
pub data Choice : Type 0 where
  mode : String → Choice
  function : String → Choice

-- `toolChoice`.
unfoldable pub tool_choice : ToolChoice → List ToolDefinition → Converted (Option Choice)
tool_choice choice tools =
    if is_empty tools
    then (if requires_tools choice.type
        then err (BadRequest.choice_needs_tools choice.type)
        else ok none)
    else elim choice.type [
      | ToolChoiceType.auto ↦ ok (some (Choice.mode "auto"))
      | ToolChoiceType.never ↦ ok (some (Choice.mode "none"))
      | ToolChoiceType.required ↦ ok (some (Choice.mode "required"))
      | ToolChoiceType.tool ↦
          if str_eq choice.name ""
          then err BadRequest.choice_needs_name
          else ok (some (Choice.function choice.name))
      | _ ↦ ok none
    ]

-- `FunctionDefinitionParam`.
pub record FunctionTool : Type 0 where
  pub name : String
  pub description : String
  pub parameters : Fields

-- `tv, ok := raw["type"]` is there and is not the string "object".
unfoldable pub bad_type : Option Json → Bool
bad_type none = false
bad_type (some (Json.text t)) = not (str_eq t "object")
bad_type (some v) = true

-- `params["required"]` set to an empty array where it is absent or null.
unfoldable pub with_required : Fields → Option Json → Fields
unfolding set
with_required params none = set params "required" (Json.array Items.no_items)
with_required params (some Json.null) = set params "required" (Json.array Items.no_items)
with_required params (some v) = params

-- `ChatCompletionNewParams`, but for the temperature and the reasoning effort.
pub record Params : Type 0 where
  pub model : String
  pub messages : List ChatMessage
  pub max_tokens : Option ℤ
  pub tools : List FunctionTool
  pub tool_choice : Option Choice

module _ (parse : Bytes → Option Json) where
  -- The parameters of a tool in `buildTools`.
  unfoldable pub tool_parameters : ToolDefinition → Converted Fields
  unfolding bad_type with_required get set
  tool_parameters t =
      if is_empty t.input_schema
      then ok (Fields.field "type" (Json.text "object") Fields.no_fields)
      else elim (parse t.input_schema) [
        | some (Json.object raw) ↦
            let params = set raw "type" (Json.text "object") in
            if bad_type (get raw "type")
            then err (BadRequest.schema_type t.name)
            else ok (with_required params (get params "required"))
        | some Json.null ↦ err (BadRequest.schema_not_object t.name)
        | _ ↦ err (BadRequest.schema_not_json t.name)
      ]

  -- `buildTools`.
  unfoldable pub build_tools : List ToolDefinition → Converted (List FunctionTool)
  unfolding tool_parameters
  build_tools [] = ok []
  build_tools (t ∷ ts) = do
    params ← tool_parameters t
    rest ← build_tools ts
    ok (record { name = t.name; description = t.description; parameters = params } ∷ rest)

  -- `toParams`.
  unfoldable pub to_params : String → ChatRequest → Converted Params
  unfolding system_text build_messages build_tools tool_choice
  to_params model req = do
    sys ← system_text req.system
    msgs ← build_messages req.messages sys
    tools ← build_tools req.tools
    ch ← tool_choice req.tool_choice req.tools
    ok (record {
      model = model;
      messages = msgs;
      max_tokens = if ltb_ℤ (pos 0) req.max_tokens then some req.max_tokens else none;
      tools = tools;
      tool_choice = ch;
    })
