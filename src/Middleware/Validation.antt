-- ===== src/Middleware/Validation.antt =====
-- llms/middleware/validation.go: the structural rules for a transcript.
pub mod Conversation
pub mod Legality
pub mod Calls
pub mod Pairing
use maestro_llms.Base.{
  ℕ, zero, suc, String, Bool, true, false, not, ◌||◌, Option, none, some, List, [], ◌∷◌, Result, ok,
  err, ◌>>=◌, ◌>>◌, refuse, if◌then◌else◌, is_empty, has, remove, str_eq,
}
use maestro_llms.Llms.Message.{
  Role, ContentPart, ContentPartType, Message, ToolCall, ToolResult, Reasoning, ChatRequest,
  is_assistant, is_tool, is_reasoning_type, is_text_type,
}
use maestro_llms.Llms.Reasons.{Invalid}

abbrev pub Checked : Type 0 → Type 0
Checked A = Result Invalid A

abbrev pub ok_unit : Checked (Unit {0})
ok_unit = ok tt

-- `hasNonReasoning`.
unfoldable pub has_non_reasoning : List ContentPart → Bool
has_non_reasoning [] = false
has_non_reasoning (p ∷ ps) = not (is_reasoning_type p.type) || has_non_reasoning ps

-- `p.ToolCall == nil || p.ToolCall.ID == ""`, and so for the two other payloads.
abbrev pub tool_call_unset : Option ToolCall → Bool
tool_call_unset none = true
tool_call_unset (some c) = str_eq c.id ""

abbrev pub tool_result_unset : Option ToolResult → Bool
tool_result_unset none = true
tool_result_unset (some r) = str_eq r.tool_call_id ""

abbrev pub reasoning_unset : Option Reasoning → Bool
reasoning_unset none = true
reasoning_unset (some r) = str_eq r.provider ""

-- `validateReasoning`.
unfoldable pub validate_reasoning : ℕ → ℕ → Role → ContentPart → Checked (Unit {0})
validate_reasoning mi pi role p = do
  refuse (reasoning_unset p.reasoning) (Invalid.reasoning_missing mi pi)
  refuse (not (is_assistant role)) (Invalid.reasoning_role mi pi role)

-- The `switch` on a part's type.
validate_type : ContentPartType → ℕ → ℕ → Role → ContentPart → Checked (Unit {0})
unfolding validate_reasoning
validate_type ContentPartType.text mi pi role p = ok_unit
validate_type ContentPartType.tool_call mi pi role p = do
  refuse (tool_call_unset p.tool_call) (Invalid.tool_call_missing mi pi)
  refuse (not (is_assistant role)) (Invalid.tool_call_role mi pi role)
validate_type ContentPartType.reasoning mi pi role p = validate_reasoning mi pi role p
validate_type ContentPartType.tool_result mi pi role p = do
  refuse (tool_result_unset p.tool_result) (Invalid.tool_result_missing mi pi)
  refuse (not (is_tool role)) (Invalid.tool_result_role mi pi role)
validate_type (ContentPartType.other t) mi pi role p =
    err (Invalid.unknown_content_type mi pi (ContentPartType.other t))

-- One round of the loop of `validateParts`.
unfoldable pub validate_part : ℕ → ℕ → Role → ContentPart → Checked (Unit {0})
unfolding validate_type
validate_part mi pi role p = validate_type p.type mi pi role p

-- `validateParts`, from part `pi` on.
unfoldable pub validate_parts : ℕ → ℕ → Role → List ContentPart → Checked (Unit {0})
unfolding validate_part
validate_parts mi pi role [] = ok_unit
validate_parts mi pi role (p ∷ ps) =
    let rest = validate_parts mi (suc pi) role ps in validate_part mi pi role p >> rest

-- `pairingState`: two sets of IDs.
pub record PairingState : Type 0 where
  pub pending : List String
  pub resolved : List String

-- A part's ToolCall.ID, read through the pointer.
abbrev call_id : Option ToolCall → Checked String
call_id none = err Invalid.nil_dereference
call_id (some c) = ok c.id

abbrev result_id : Option ToolResult → Checked String
result_id none = err Invalid.nil_dereference
result_id (some r) = ok r.tool_call_id

abbrev pub is_call_type : ContentPartType → Bool
is_call_type ContentPartType.tool_call = true
is_call_type _ = false

abbrev pub is_result_type : ContentPartType → Bool
is_result_type ContentPartType.tool_result = true
is_result_type _ = false

-- One round of the loop of `pairingState.assistant`: the pending set after it.
unfoldable pub open_call : ℕ → ContentPart → List String → Checked (List String)
open_call mi p pending = if not (is_call_type p.type) then ok pending else do
  id ← call_id p.tool_call
  refuse (has pending id) (Invalid.duplicate_tool_call mi id)
  ok (id ∷ pending)

unfoldable pub open_calls : ℕ → List ContentPart → List String → Checked (List String)
unfolding open_call
open_calls mi [] pending = ok pending
open_calls mi (p ∷ ps) pending = open_call mi p pending >>= open_calls mi ps

-- `pairingState.assistant`.
unfoldable pub step_assistant : ℕ → Message → PairingState → Checked PairingState
unfolding open_calls
step_assistant mi m s = do
  refuse (not (is_empty s.pending)) (Invalid.calls_without_results mi s.pending)
  pending ← open_calls mi m.content s.pending
  ok (record { pending = pending; resolved = [] })

-- One round of the loop of `pairingState.tool`.
unfoldable pub close_call : ℕ → ContentPart → PairingState → Checked PairingState
close_call mi p s = do
  refuse (not (is_result_type p.type)) (Invalid.not_tool_result mi)
  id ← result_id p.tool_result
  if has s.pending id
      then ok (record { pending = remove s.pending id; resolved = id ∷ s.resolved })
      else if has s.resolved id
      then err (Invalid.duplicate_tool_result mi id)
      else err (Invalid.orphaned_tool_result mi id)

-- `pairingState.tool`.
unfoldable pub close_calls : ℕ → List ContentPart → PairingState → Checked PairingState
unfolding close_call
close_calls mi [] s = ok s
close_calls mi (p ∷ ps) s = close_call mi p s >>= close_calls mi ps

step_role : Role → ℕ → Message → PairingState → Checked PairingState
unfolding step_assistant close_calls
step_role Role.assistant mi m s = step_assistant mi m s
step_role Role.tool mi m s = close_calls mi m.content s
step_role Role.user mi m s = do
  refuse (not (is_empty s.pending)) (Invalid.user_before_results mi s.pending)
  ok s
step_role (Role.other r) mi m s = err (Invalid.unknown_role mi (Role.other r))

-- `pairingState.step`.
unfoldable pub step : ℕ → Message → PairingState → Checked PairingState
unfolding step_role
step mi m s = step_role m.role mi m s

-- The first check of each round of `ValidateMessages`.
unfoldable pub check_content : ℕ → Message → Checked (Unit {0})
unfolding has_non_reasoning
check_content mi m =
    refuse (not (has_non_reasoning m.content))
      (if is_assistant m.role then Invalid.empty_assistant mi else Invalid.empty_content mi m.role)

-- One round of the loop of `ValidateMessages`.
unfoldable pub check_message : ℕ → Message → PairingState → Checked PairingState
unfolding check_content validate_parts step
check_message mi m s = do check_content mi m; validate_parts mi 0 m.role m.content; step mi m s

-- The loop, from message `mi` on.
unfoldable pub check_messages : ℕ → List Message → PairingState → Checked PairingState
unfolding check_message
check_messages mi [] s = ok s
check_messages mi (m ∷ ms) s = check_message mi m s >>= check_messages (suc mi) ms

abbrev pub no_calls : PairingState
no_calls = record { pending = []; resolved = [] }

-- `ValidateMessages`.
unfoldable pub validate_messages : List Message → Checked (Unit {0})
unfolding check_messages
validate_messages msgs = do
  refuse (is_empty msgs) Invalid.no_messages
  s ← check_messages 0 msgs no_calls
  refuse (not (is_empty s.pending)) (Invalid.ends_with_calls s.pending)

-- The loop of `validateChatRequest` over the system parts, from part `i` on.
unfoldable pub check_system : ℕ → List ContentPart → Checked (Unit {0})
check_system i [] = ok_unit
check_system i (p ∷ ps) =
    let rest = check_system (suc i) ps in
    refuse (not (is_text_type p.type)) (Invalid.system_not_text i p.type) >> rest

-- `validateChatRequest`.
unfoldable pub validate_chat_request : ChatRequest → Checked (Unit {0})
unfolding check_system validate_messages
validate_chat_request req = check_system 0 req.system >> validate_messages req.messages
