-- ===== src/Middleware/Validation/Conversation.antt =====
-- The transcripts that llms/middleware/validation.go means to accept, said without its loops: turns
-- in which every tool call is answered exactly once before the conversation goes on.
use maestro_llms.Base.{
  ◌≤◌, ◌≡◌, ◌≢◌, String, true, Option, none, some, List, [], ◌∷◌, ◌++◌, count, append_assoc,
}
use maestro_llms.Llms.Message.{
  Role, ContentPart, ContentPartType, Message, ToolCall, ToolResult, Reasoning,
}
use maestro_llms.Middleware.Validation.{has_non_reasoning}

-- What a part of each type has to carry, and in whose message it may stand.
abbrev pub LegalType : ContentPartType → Role → ContentPart → Type 0
LegalType ContentPartType.text role p = Unit
LegalType ContentPartType.tool_call role p =
    (c : ToolCall) × (p.tool_call ≡ some c) × (c.id ≢ "") × (role ≡ Role.assistant)
LegalType ContentPartType.tool_result role p =
    (r : ToolResult) × (p.tool_result ≡ some r) × (r.tool_call_id ≢ "") × (role ≡ Role.tool)
LegalType ContentPartType.reasoning role p =
    (r : Reasoning) × (p.reasoning ≡ some r) × (r.provider ≢ "") × (role ≡ Role.assistant)
LegalType (ContentPartType.other t) role p = ⊥

abbrev pub LegalParts : Role → List ContentPart → Type 0
LegalParts role [] = Unit
LegalParts role (p ∷ ps) = LegalType p.type role p × LegalParts role ps

-- A message that says something and whose parts are legal.
pub record Legal (m : Message) : Type 0 where
  pub says : has_non_reasoning m.content ≡ true
  pub parts : LegalParts m.role m.content

abbrev pub AllResults : List ContentPart → Type 0
AllResults [] = Unit
AllResults (p ∷ ps) = (p.type ≡ ContentPartType.tool_result) × AllResults ps

-- A message of the tool role that holds results and nothing else.
pub record ToolTurn (m : Message) : Type 0 where
  pub legal : Legal m
  pub role : m.role ≡ Role.tool
  pub results : AllResults m.content

abbrev pub ToolTurns : List Message → Type 0
ToolTurns [] = Unit
ToolTurns (m ∷ ms) = ToolTurn m × ToolTurns ms

abbrev pub call_of : ContentPartType → Option ToolCall → List String
call_of ContentPartType.tool_call (some c) = c.id ∷ []
call_of ContentPartType.tool_call none = []
call_of _ c = []

abbrev pub result_of : ContentPartType → Option ToolResult → List String
result_of ContentPartType.tool_result (some r) = r.tool_call_id ∷ []
result_of ContentPartType.tool_result none = []
result_of _ r = []

-- The IDs of the tool calls of a message, and of the results of one or more messages.
abbrev pub call_ids : List ContentPart → List String
call_ids [] = []
call_ids (p ∷ ps) = call_of p.type p.tool_call ++ call_ids ps

abbrev pub result_ids : List ContentPart → List String
result_ids [] = []
result_ids (p ∷ ps) = result_of p.type p.tool_result ++ result_ids ps

abbrev pub all_result_ids : List Message → List String
all_result_ids [] = []
all_result_ids (m ∷ ms) = result_ids m.content ++ all_result_ids ms

-- No text stands in the list twice.
abbrev pub Distinct : List String → Type 0
Distinct xs = (id : String) → count id xs ≤ 1

-- Two lists hold the same texts, as often.
abbrev pub SameIds : List String → List String → Type 0
SameIds xs ys = (id : String) → count id xs ≡ count id ys

-- User messages, and assistant messages each with the tool messages that answer its calls: every
-- call once, in any order, in any number of messages.
pub data Conversation : List Message → Type 0 where
  done : Conversation []
  user_turn :
      (m : Message) {ms : List Message}
      → Legal m
      → m.role ≡ Role.user
      → Conversation ms
      → Conversation (m ∷ ms)
  assistant_turn :
      (m : Message) (ts rest : List Message) {ms : List Message}
      → Legal m
      → m.role ≡ Role.assistant
      → Distinct (call_ids m.content)
      → ToolTurns ts
      → SameIds (all_result_ids ts) (call_ids m.content)
      → Conversation rest
      → ms ≡ ts ++ rest
      → Conversation (m ∷ ms)

pub Conversation-append :
    {xs : List Message} (ys : List Message)
    → Conversation xs
    → Conversation ys
    → Conversation (xs ++ ys)
Conversation-append ys Conversation.done c = c
Conversation-append ys (Conversation.user_turn m l r c) d =
    Conversation.user_turn m l r (Conversation-append ys c d)
Conversation-append ys (Conversation.assistant_turn m ts rest l r di turns sa c e) d =
    Conversation.assistant_turn m ts (rest ++ ys) l r di turns sa (Conversation-append ys c d)
      (rw e (append_assoc ts rest ys))
