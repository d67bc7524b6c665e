-- ===== src/Providers/Ollama.antt =====
-- llms/providers/ollama/wire.go: the conversion to and from Ollama's /api/chat messages. The parser
-- of a tool's schema is an argument, and so is the text of a call's index.
pub mod RoundTrip
use maestro_llms.Base.{
  ℕ, zero, suc, String, Bool, true, false, not, ◌&&◌, ◌||◌, append_text, Option, none, some, List,
  [], ◌∷◌, ◌++◌, map, Result, ok, err, ◌>>=◌, ◌>>◌, refuse, is_empty, if◌then◌else◌, str_eq,
}
use maestro_llms.Base.Int.{ℤ, pos, add64, ltb_ℤ}
use maestro_llms.Llms.Message.{
  Bytes, Role, ContentPart, ContentPartType, Message, ToolCall, ToolResult, ToolChoice,
  ToolChoiceType, ToolDefinition, ChatRequest, ChatResponse, text_part, call_part, is_named,
  is_none_choice, requires_tools,
}
use maestro_llms.Llms.Usage.{Usage, zero_usage}
use maestro_llms.Llms.Reasoning.{reasoning_from}
use maestro_llms.Providers.Json
use maestro_llms.Providers.Json.{Json, Fields, get}
use maestro_llms.Providers.Requests.{BadRequest, Converted, join_system}

-- `wireToolFunc`, `wireToolCall` and `wireMessage`.
pub record WireToolFunc : Type 0 where
  pub name : String
  pub arguments : Bytes

pub record WireToolCall : Type 0 where
  pub id : String
  pub function : WireToolFunc

pub record WireMessage : Type 0 where
  pub role : String
  pub content : String
  pub tool_calls : List WireToolCall
  pub tool_call_id : String

-- `wireToolDef` and `wireTool`.
pub record WireToolDef : Type 0 where
  pub name : String
  pub description : String
  pub parameters : Bytes

pub record WireTool : Type 0 where
  pub type : String
  pub function : WireToolDef

-- `wireRequest`, but for Think and Options, which follow from fields of the request that the model
-- leaves out or that hold no logic.
pub record WireRequest : Type 0 where
  pub model : String
  pub messages : List WireMessage
  pub tools : List WireTool
  pub num_predict : Option ℤ
  pub stream : Bool

pub record WireResponse : Type 0 where
  pub model : String
  pub message : WireMessage
  pub done_reason : String
  pub error : String
  pub prompt_eval_count : ℤ
  pub eval_count : ℤ
  pub done : Bool

-- `systemText`.
unfoldable pub system_text : List ContentPart → Converted String
system_text = join_system ""

-- `roleFor`.
unfoldable pub role_for : Role → Option String
role_for Role.user = some "user"
role_for Role.assistant = some "assistant"
role_for Role.tool = some "tool"
role_for (Role.other r) = none

-- `partAllowed`.
unfoldable pub part_allowed : Role → ContentPartType → Bool
part_allowed Role.user ContentPartType.text = true
part_allowed Role.assistant ContentPartType.text = true
part_allowed Role.assistant ContentPartType.tool_call = true
part_allowed Role.tool ContentPartType.tool_result = true
part_allowed _ _ = false

-- What the loop of `messageParts` has gathered.
pub record Gathered : Type 0 where
  pub out : List WireMessage
  pub text : String
  pub tool_calls : List WireToolCall

abbrev pub wire_call : ToolCall → WireToolCall
wire_call c = record { id = c.id; function = record { name = c.name; arguments = c.parameters } }

abbrev pub wire_result : ToolResult → WireMessage
wire_result r = record {
  role = "tool";
  content = r.content;
  tool_calls = [];
  tool_call_id = r.tool_call_id;
}

-- The `switch` on a part's type, after `partAllowed`.
unfoldable pub gather_type : ContentPartType → ContentPart → Gathered → Converted Gathered
gather_type ContentPartType.text p g =
    if str_eq p.text ""
    then err BadRequest.empty_text
    else ok (record g { text = append_text g.text p.text })
gather_type ContentPartType.tool_call p g = elim p.tool_call [
  | none ↦ err BadRequest.nil_tool_call
  | some c ↦ ok (record g { tool_calls = g.tool_calls ++ wire_call c ∷ [] })
]
gather_type ContentPartType.tool_result p g = elim p.tool_result [
  | none ↦ err BadRequest.nil_tool_result
  | some r ↦ ok (record g { out = g.out ++ wire_result r ∷ [] })
]
gather_type _ p g = ok g

unfoldable pub gather_part : Role → ContentPart → Gathered → Converted Gathered
unfolding part_allowed gather_type
gather_part role p g = do
  refuse (not (part_allowed role p.type)) (BadRequest.part_not_valid p.type role)
  gather_type p.type p g

unfoldable pub gather : Role → List ContentPart → Gathered → Converted Gathered
unfolding gather_part
gather role [] g = ok g
gather role (p ∷ ps) g = gather_part role p g >>= gather role ps

-- What `messageParts` returns of what was gathered.
unfoldable pub finished : String → Gathered → List WireMessage
finished role g =
    if str_eq g.text "" && is_empty g.tool_calls
    then g.out
    else g.out
      ++ record { role = role; content = g.text; tool_calls = g.tool_calls; tool_call_id = "" } ∷ []

abbrev pub nothing_yet : Gathered
nothing_yet = record { out = []; text = ""; tool_calls = [] }

-- `messageParts`.
unfoldable pub message_parts : Message → Converted (List WireMessage)
unfolding role_for gather finished
message_parts m = elim (role_for m.role) [
  | none ↦ err (BadRequest.unknown_role m.role)
  | some role ↦ gather m.role m.content nothing_yet >>= λ g. ok (finished role g)
]

unfoldable pub messages_parts : List Message → Converted (List WireMessage)
unfolding message_parts
messages_parts [] = ok []
messages_parts (m ∷ ms) = do mp ← message_parts m; rest ← messages_parts ms; ok (mp ++ rest)

-- `{"type":"object"}`
abbrev pub any_object : Bytes
any_object =
    b'{' ∷ b'"' ∷ b't' ∷ b'y' ∷ b'p' ∷ b'e' ∷ b'"' ∷ b':' ∷ b'"' ∷ b'o' ∷ b'b' ∷ b'j' ∷ b'e' ∷ b'c'
    ∷ b't' ∷ b'"' ∷ b'}' ∷ []

-- `obj["type"].(string)` is there and is not "object".
unfoldable pub other_type : Option Json → Bool
other_type (some (Json.text t)) = not (str_eq t "object")
other_type _ = false

-- The choice of a tool by its name.
unfoldable pub validate_named : String → List ToolDefinition → Converted (Unit {0})
validate_named name [] = err (BadRequest.choice_not_offered name)
validate_named name (t ∷ ts) =
    let rest = validate_named name ts in if str_eq t.name name then ok tt else rest

-- `validateToolChoice`.
unfoldable pub validate_tool_choice : ToolChoice → List ToolDefinition → Converted (Unit {0})
unfolding validate_named
validate_tool_choice choice tools =
    if requires_tools choice.type && is_empty tools
    then err (BadRequest.choice_needs_tools choice.type)
    else if not (is_named choice.type)
    then ok tt
    else if str_eq choice.name ""
    then err BadRequest.choice_needs_name
    else validate_named choice.name tools

-- The messages of a request, the system prompt first.
unfoldable pub with_system : String → List WireMessage → List WireMessage
with_system sys ms =
    if str_eq sys ""
    then ms
    else record { role = "system"; content = sys; tool_calls = []; tool_call_id = "" } ∷ ms

module _ (parse : Bytes → Option Json) where
  -- The parameters of a tool in `buildTools`.
  unfoldable pub tool_parameters : ToolDefinition → Converted Bytes
  unfolding other_type get
  tool_parameters t =
      if is_empty t.input_schema then ok any_object else elim (parse t.input_schema) [
        | some (Json.object f) ↦
            if other_type (get f "type")
            then err (BadRequest.schema_type t.name)
            else ok t.input_schema
        | _ ↦ err (BadRequest.schema_not_object t.name)
      ]

  -- `buildTools`.
  unfoldable pub build_tools : List ToolDefinition → Converted (List WireTool)
  unfolding tool_parameters
  build_tools [] = ok []
  build_tools (t ∷ ts) = do
    params ← tool_parameters t
    rest ← build_tools ts
    ok (
        record {
          type = "function";
          function = record { name = t.name; description = t.description; parameters = params };
        }
        ∷ rest)

  -- `toWire`.
  unfoldable pub to_wire : String → ChatRequest → Converted WireRequest
  unfolding system_text messages_parts build_tools validate_tool_choice with_system
  to_wire model req = do
    sys ← system_text req.system
    msgs ← messages_parts (reasoning_from "ollama" req.messages)
    refuse (is_empty msgs) BadRequest.no_messages
    tools ← build_tools req.tools
    validate_tool_choice req.tool_choice req.tools
    ok (record {
      model = model;
      messages = with_system sys msgs;
      tools = if is_none_choice req.tool_choice.type then [] else tools;
      num_predict = if ltb_ℤ (pos 0) req.max_tokens then some req.max_tokens else none;
      stream = false;
    })

-- `resp.Message.Content` and its calls as parts; `show` is the text of an index.
module _ (show : ℕ → String) where
  -- The ID of the call at an index: its own, or a synthetic one.
  unfoldable pub id_of : ℕ → WireToolCall → String
  id_of i tc = if str_eq tc.id "" then append_text "call_" (show i) else tc.id

  unfoldable pub call_at : ℕ → WireToolCall → ToolCall
  unfolding id_of
  call_at i tc = record {
    id = id_of i tc;
    name = tc.function.name;
    parameters = tc.function.arguments;
    provider_signature = [];
  }

  unfoldable pub calls_from : ℕ → List WireToolCall → List ToolCall
  unfolding call_at
  calls_from i [] = []
  calls_from i (tc ∷ tcs) = call_at i tc ∷ calls_from (suc i) tcs

  -- `toChatResponse`.
  unfoldable pub to_chat_response : WireResponse → ChatResponse
  unfolding calls_from add64
  to_chat_response resp =
      let calls = calls_from 0 resp.message.tool_calls in
      record {
        message = record {
          role = Role.assistant;
          content =
              (if str_eq resp.message.content "" then [] else text_part resp.message.content ∷ [])
              ++ map call_part calls;
        };
        text = resp.message.content;
        tool_calls = calls;
        stop_reason = if str_eq resp.done_reason "" && resp.done then "stop" else resp.done_reason;
        usage = record zero_usage {
          input_tokens = resp.prompt_eval_count;
          output_tokens = resp.eval_count;
          billable_output_tokens = resp.eval_count;
          total_tokens = add64 resp.prompt_eval_count resp.eval_count;
        };
      }
