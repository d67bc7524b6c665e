-- ===== src/Providers/Requests.antt =====
-- What the conversions of the provider adapters share: the reasons of a refused request, the system
-- prompt and the check of a tool choice. Each adapter has its own copy of these functions.
use maestro_llms.Base.{String, append_text, List, [], ◌∷◌, Result, ok, err, if◌then◌else◌, str_eq}
use maestro_llms.Llms.Message.{Role, ContentPart, ContentPartType, ToolChoiceType, is_text_type}

-- The Message of a ProviderError of kind bad_request, which is not sent to the provider.
pub data BadRequest : Type 0 where
  system_not_text empty_text nil_tool_call nil_tool_result no_messages : BadRequest
  unknown_role : Role → BadRequest
  unknown_part : ContentPartType → BadRequest
  part_not_valid : ContentPartType → Role → BadRequest
  -- a message of this role with no part, with one that is not text, or with an empty text
  empty_content not_text_only empty_text_part : Role → BadRequest
  not_only_results nothing_said must_start_with_user : BadRequest
  nil_reasoning malformed_reasoning malformed_parameters no_signature no_data : BadRequest
  unknown_block : String → BadRequest
  schema_not_json schema_not_object schema_type : String → BadRequest
  choice_needs_tools : ToolChoiceType → BadRequest
  choice_needs_name : BadRequest
  choice_not_offered : String → BadRequest

abbrev pub Converted : Type 0 → Type 0
Converted A = Result BadRequest A

-- Two newlines between what is there and a further text.
abbrev pub separated : String → String → String
separated acc t = if str_eq acc "" then t else append_text acc (append_text "\n\n" t)

-- The loop of `systemText`.
unfoldable pub join_system : String → List ContentPart → Converted String
join_system acc [] = ok acc
join_system acc (p ∷ ps) =
    let rest = join_system (separated acc p.text) ps in
    if is_text_type p.type then rest else err BadRequest.system_not_text
