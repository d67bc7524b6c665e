-- ===== src/Providers/Google.antt =====
-- llms/providers/google/convert.go: the conversion of a conversation to Gemini's contents. The SDK's
-- types are data types of their own here; a nil map is none, and the decoder of JSON, which may
-- fail, is an argument.
pub mod Responses
pub mod Replay
use maestro_llms.Base.{
  String, Bool, true, false, Option, none, some, List, [], ◌∷◌, ok, err, ◌>>=◌, ◌>>◌, refuse,
  is_empty, if◌then◌else◌, str_eq,
}
use maestro_llms.Llms.Message.{
  Bytes, Role, ContentPart, ContentPartType, Message, ToolCall, ToolChoice, ToolChoiceType,
  ToolDefinition, requires_tools,
}
use maestro_llms.Llms.Reasoning.{reasoning_from}
use maestro_llms.Providers.Json.{Fields}
use maestro_llms.Providers.Requests.{BadRequest, Converted, join_system}

-- `genai.FunctionCall` and `genai.FunctionResponse`.
pub record FunctionCall : Type 0 where
  pub id : String
  pub name : String
  pub args : Option Fields

pub record FunctionResponse : Type 0 where
  pub name : String
  pub content : String
  pub is_error : Bool

-- `genai.Part`.
pub record Part : Type 0 where
  pub text : String
  pub thought : Bool
  pub function_call : Option FunctionCall
  pub function_response : Option FunctionResponse
  pub thought_signature : Bytes

abbrev pub no_part : Part
no_part = record {
  text = "";
  thought = false;
  function_call = none;
  function_response = none;
  thought_signature = [];
}

pub record Content : Type 0 where
  pub role : String
  pub parts : List Part

-- `systemText`.
unfoldable pub system_text : List ContentPart → Converted String
system_text = join_system ""

-- `roleFor`.
abbrev pub role_for : Role → Option String
role_for Role.user = some "user"
role_for Role.tool = some "user"
role_for Role.assistant = some "model"
role_for (Role.other r) = none

-- The names by call ID, the last one written first.
abbrev pub CallNames : Type 0
CallNames = List (String × String)

unfoldable pub name_of : CallNames → String → Option String
name_of [] id = none
name_of ((id', name) ∷ names) id = if str_eq id' id then some name else name_of names id

unfoldable pub named_call : ContentPartType → Option ToolCall → CallNames → CallNames
named_call ContentPartType.tool_call (some c) names =
    if str_eq c.id "" then names else (c.id, c.name) ∷ names
named_call ty c names = names

unfoldable pub part_names : List ContentPart → CallNames → CallNames
unfolding named_call
part_names [] names = names
part_names (p ∷ ps) names = part_names ps (named_call p.type p.tool_call names)

unfoldable pub message_names : List Message → CallNames → CallNames
unfolding part_names
message_names [] names = names
message_names (m ∷ ms) names = message_names ms (part_names m.content names)

-- `toolCallNames`.
unfoldable pub tool_call_names : List Message → CallNames
unfolding message_names
tool_call_names ms = message_names ms []

or_id : String → Option String → String
or_id id none = id
or_id id (some name) = name

module _ (unmarshal : Bytes → Option (Option Fields)) where
  -- `rawToMap`.
  unfoldable pub raw_to_map : Bytes → Option (Option Fields)
  raw_to_map raw = if is_empty raw then some (some Fields.no_fields) else unmarshal raw

  -- A tool call in the `switch` of `buildContents`.
  unfoldable pub call_part_of : ToolCall → Option (Option Fields) → Converted Part
  call_part_of c none = err BadRequest.malformed_parameters
  call_part_of c (some args) = ok (record no_part {
    function_call = some (record { id = c.id; name = c.name; args = args });
    thought_signature = c.provider_signature;
  })

  -- The `switch` of `buildContents`.
  unfoldable pub part_of : ContentPartType → CallNames → ContentPart → Converted Part
  unfolding raw_to_map call_part_of name_of or_id
  part_of ContentPartType.text names p =
      if str_eq p.text "" then err BadRequest.empty_text else ok (record no_part { text = p.text })
  part_of ContentPartType.tool_call names p = elim p.tool_call [
    | none ↦ err BadRequest.nil_tool_call
    | some c ↦ call_part_of c (raw_to_map c.parameters)
  ]
  part_of ContentPartType.tool_result names p = elim p.tool_result [
    | none ↦ err BadRequest.nil_tool_result
    | some r ↦ ok (record no_part {
      function_response = some (record {
        name = or_id r.tool_call_id (name_of names r.tool_call_id);
        content = r.content;
        is_error = r.is_error;
      });
    })
  ]
  part_of ty names p = err (BadRequest.unknown_part ty)

  unfoldable pub message_parts : CallNames → List ContentPart → Converted (List Part)
  unfolding part_of
  message_parts names [] = ok []
  message_parts names (p ∷ ps) = do
    first ← part_of p.type names p
    rest ← message_parts names ps
    ok (first ∷ rest)

  -- The contents of a message: none where it has no parts.
  unfoldable pub with_content : String → List Part → List Content → List Content
  with_content role [] contents = contents
  with_content role (p ∷ ps) contents = record { role = role; parts = p ∷ ps } ∷ contents

  unfoldable pub all_contents : CallNames → List Message → Converted (List Content)
  unfolding message_parts with_content
  all_contents names [] = ok []
  all_contents names (m ∷ ms) = elim (role_for m.role) [
    | none ↦ err (BadRequest.unknown_role m.role)
    | some role ↦ do
      parts ← message_parts names m.content
      rest ← all_contents names ms
      ok (with_content role parts rest)
  ]

  -- `buildContents`.
  unfoldable pub build_contents : List Message → Converted (List Content)
  unfolding tool_call_names all_contents
  build_contents messages = do
    let kept = reasoning_from "google" messages
    contents ← all_contents (tool_call_names kept) kept
    refuse (is_empty contents) BadRequest.no_messages
    ok contents

-- `genai.FunctionCallingConfig`: the mode and the names that are allowed.
pub record ToolConfig : Type 0 where
  pub mode : String
  pub allowed_function_names : List String

calling : String → List String → Converted (Option ToolConfig)
calling mode names = ok (some (record { mode = mode; allowed_function_names = names }))

-- `toolConfig`.
unfoldable pub tool_config : ToolChoice → List ToolDefinition → Converted (Option ToolConfig)
unfolding calling
tool_config choice tools =
    if is_empty tools
    then (if requires_tools choice.type
        then err (BadRequest.choice_needs_tools choice.type)
        else ok none)
    else elim choice.type [
      | ToolChoiceType.auto ↦ calling "AUTO" []
      | ToolChoiceType.never ↦ calling "NONE" []
      | ToolChoiceType.required ↦ calling "ANY" []
      | ToolChoiceType.tool ↦
          if str_eq choice.name ""
          then err BadRequest.choice_needs_name
          else calling "ANY" (choice.name ∷ [])
      | _ ↦ ok none
    ]
