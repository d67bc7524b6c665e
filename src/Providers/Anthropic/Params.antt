-- ===== src/Providers/Anthropic/Params.antt =====
-- llms/providers/anthropic/convert.go: the whole of a request. The parser of a tool's schema is an
-- argument.
use maestro_llms.Base.{
  ℕ, ◌-◌, String, Bool, true, false, not, ◌||◌, Option, none, some, List, [], ◌∷◌, ok, err, ◌>>=◌,
  ◌>>◌, is_empty, if◌then◌else◌, str_eq,
}
use maestro_llms.Base.Int.{ℤ, pos, leb_ℤ}
use maestro_llms.Llms.Message.{
  Bytes, ContentPart, Message, ToolChoice, ToolChoiceType, ToolDefinition, ChatRequest,
  requires_tools,
}
use maestro_llms.Llms.Reasoning.{reasoning_from}
use maestro_llms.Providers.Json.{Json, Items, Fields, get}
use maestro_llms.Providers.Requests.{BadRequest, Converted}
use maestro_llms.Providers.Anthropic.{
  MessageParam, Side, ThinkingCodec, CacheBudget, flush, add_messages, system_text,
  system_has_breakpoint, count_content_breakpoints, max_cache_breakpoints,
}

-- `ToolInputSchemaParam` and `ToolParam`; an unset description is the empty text.
pub record ToolSchema : Type 0 where
  pub properties : Option Json
  pub required : List String
  pub extra_fields : Fields

pub record ToolParam : Type 0 where
  pub name : String
  pub description : String
  pub input_schema : ToolSchema

-- `ToolChoiceUnionParam`.
pub data Choice : Type 0 where
  auto never any : Choice
  tool : String → Choice

-- `MessageNewParams`, but for the temperature and the reasoning controls. The system prompt is its
-- text and whether it has a cache_control marker.
pub record Params : Type 0 where
  pub model : String
  pub messages : List MessageParam
  pub max_tokens : ℤ
  pub system : Option (String × Bool)
  pub tools : List ToolParam
  pub tool_choice : Option Choice

unfoldable pub starts_with_user : List MessageParam → Converted (Unit {0})
starts_with_user [] = err BadRequest.no_messages
starts_with_user (m ∷ ms) = elim m.role [
  | Side.user ↦ ok tt
  | Side.assistant ↦ err BadRequest.must_start_with_user
]

-- `buildMessages`.
unfoldable pub build_messages :
    ThinkingCodec → List Message → CacheBudget → Converted (List MessageParam)
unfolding add_messages flush starts_with_user
build_messages codec messages b = do
  s ←
      add_messages codec (reasoning_from "anthropic" messages)
        (record { out = []; user_buf = []; budget = b })
  starts_with_user (flush s).out
  ok (flush s).out

-- The strings of a []any.
unfoldable pub strings_of : Items → List String
strings_of Items.no_items = []
strings_of (Items.item (Json.text t) rest) = t ∷ strings_of rest
strings_of (Items.item v rest) = strings_of rest

unfoldable pub required_of : Option Json → List String
unfolding strings_of
required_of (some (Json.array vs)) = strings_of vs
required_of _ = []

abbrev is_known_key : String → Bool
is_known_key k = str_eq k "properties" || (str_eq k "required" || str_eq k "type")

unfoldable pub extra_of : Fields → Fields
extra_of Fields.no_fields = Fields.no_fields
extra_of (Fields.field k v rest) =
    let kept = extra_of rest in if is_known_key k then kept else Fields.field k v kept

-- `tv, ok := raw["type"]` is there and is not the string "object".
unfoldable pub bad_type : Option Json → Bool
bad_type none = false
bad_type (some (Json.text t)) = not (str_eq t "object")
bad_type (some v) = true

unfoldable pub schema_of : String → Fields → Converted ToolSchema
unfolding bad_type get required_of extra_of
schema_of name raw =
    if bad_type (get raw "type")
    then err (BadRequest.schema_type name)
    else ok (record {
      properties = get raw "properties";
      required = required_of (get raw "required");
      extra_fields = extra_of raw;
    })

abbrev no_schema : ToolSchema
no_schema = record { properties = none; required = []; extra_fields = Fields.no_fields }

-- `toolChoice`: the choice, or none where it is not set.
unfoldable pub tool_choice : ToolChoice → List ToolDefinition → Converted (Option Choice)
tool_choice choice tools =
    if is_empty tools
    then (if requires_tools choice.type
        then err (BadRequest.choice_needs_tools choice.type)
        else ok none)
    else elim choice.type [
      | ToolChoiceType.auto ↦ ok (some Choice.auto)
      | ToolChoiceType.never ↦ ok (some Choice.never)
      | ToolChoiceType.required ↦ ok (some Choice.any)
      | ToolChoiceType.tool ↦
          if str_eq choice.name ""
          then err BadRequest.choice_needs_name
          else ok (some (Choice.tool choice.name))
      | _ ↦ ok none
    ]

-- The number of marked parts that are sent without a marker: what is over the budget.
unfoldable pub skipped : List ContentPart → List Message → ℕ
unfolding count_content_breakpoints system_has_breakpoint
skipped system messages =
    count_content_breakpoints messages
    - (if system_has_breakpoint system then max_cache_breakpoints - 1 else max_cache_breakpoints)

-- `defaultMaxTokens`.
abbrev pub default_max_tokens : ℤ
default_max_tokens = pos 4096

module _ (codec : ThinkingCodec) (parse : Bytes → Option Json) where
  -- `parseToolSchema`.
  unfoldable pub parse_tool_schema : String → Bytes → Converted ToolSchema
  unfolding schema_of
  parse_tool_schema name raw = if is_empty raw then ok no_schema else elim (parse raw) [
    | some (Json.object fields) ↦ schema_of name fields
    | some Json.null ↦ ok no_schema
    | _ ↦ err (BadRequest.schema_not_json name)
  ]

  -- `buildTools`.
  unfoldable pub build_tools : List ToolDefinition → Converted (List ToolParam)
  unfolding parse_tool_schema
  build_tools [] = ok []
  build_tools (t ∷ ts) = do
    schema ← parse_tool_schema t.name t.input_schema
    rest ← build_tools ts
    ok (record { name = t.name; description = t.description; input_schema = schema } ∷ rest)

  -- `toParams`.
  unfoldable pub to_params : String → ChatRequest → Converted Params
  unfolding system_text build_messages build_tools tool_choice skipped system_has_breakpoint
  to_params model req = do
    sys ← system_text req.system
    msgs ←
        build_messages codec req.messages
          (record { skip = skipped req.system req.messages; seen = 0 })
    tools ← build_tools req.tools
    ch ← tool_choice req.tool_choice req.tools
    ok (record {
      model = model;
      messages = msgs;
      max_tokens = if leb_ℤ req.max_tokens (pos 0) then default_max_tokens else req.max_tokens;
      system = if str_eq sys "" then none else some (sys, system_has_breakpoint req.system);
      tools = tools;
      tool_choice = ch;
    })
