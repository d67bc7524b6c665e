-- ===== src/Providers/Anthropic.antt =====
-- llms/providers/anthropic/convert.go: the messages of a request, and those of a response. The
-- SDK's parameter and response types are data types of their own here; the JSON encoding of a
-- thinking block is an argument.
pub mod Params
pub mod Responses
pub mod Markers
pub mod Budget
pub mod Replay
use maestro_llms.Base.{
  ℕ, suc, ◌+◌, ◌-◌, String, Bool, true, false, not, ◌&&◌, ◌||◌, Option, none, some, List, [], ◌∷◌,
  ◌++◌, leb, Result, ok, err, ◌>>=◌, ◌>>◌, refuse, is_empty, if◌then◌else◌, str_eq,
}
use maestro_llms.Llms.Message.{
  Bytes, Role, ContentPart, ContentPartType, Message, Reasoning, ToolCall, ToolResult, is_text_type,
}
use maestro_llms.Providers.Requests.{BadRequest, Converted, join_system}

-- The SDK's `ContentBlockParamUnion`; `cached` is whether a text block has a cache_control marker.
pub data Block : Type 0 where
  text : (text : String) (cached : Bool) → Block
  tool_use : (id : String) (input : Bytes) (name : String) → Block
  tool_result : (tool_use_id content : String) (is_error : Bool) → Block
  thinking : (signature thinking : String) → Block
  redacted : (data_text : String) → Block

pub data Side : Type 0 where
  user assistant : Side

-- `MessageParam`.
pub record MessageParam : Type 0 where
  pub role : Side
  pub content : List Block

-- `systemText`.
unfoldable pub system_text : List ContentPart → Converted String
system_text = join_system ""

-- `anthropicMaxCacheBreakpoints`.
abbrev pub max_cache_breakpoints : ℕ
max_cache_breakpoints = 4

-- `cacheBudget`; the counts are never negative.
pub record CacheBudget : Type 0 where
  pub skip : ℕ
  pub seen : ℕ

-- `honor`.
unfoldable pub honor : CacheBudget → Bool × CacheBudget
honor b = (leb b.skip b.seen, record b { seen = suc b.seen })

-- `systemHasBreakpoint`.
unfoldable pub system_has_breakpoint : List ContentPart → Bool
system_has_breakpoint [] = false
system_has_breakpoint (p ∷ ps) = p.cache_breakpoint || system_has_breakpoint ps

unfoldable pub count_breakpoints : List ContentPart → ℕ
count_breakpoints [] = 0
count_breakpoints (p ∷ ps) =
    (if is_text_type p.type && p.cache_breakpoint then 1 else 0) + count_breakpoints ps

-- `countContentBreakpoints`.
unfoldable pub count_content_breakpoints : List Message → ℕ
unfolding count_breakpoints
count_content_breakpoints [] = 0
count_content_breakpoints (m ∷ ms) = count_breakpoints m.content + count_content_breakpoints ms

-- `thinkingWire`, and its two block types.
pub data ThinkingType : Type 0 where
  thinking redacted_thinking : ThinkingType
  other : String → ThinkingType

pub record ThinkingWire : Type 0 where
  pub type : ThinkingType
  pub thinking : String
  pub signature : String
  pub data_text : String

-- encoding/json on a `thinkingWire`; none where it fails.
pub record ThinkingCodec : Type 0 where
  pub marshal : ThinkingWire → Option Bytes
  pub unmarshal : Bytes → Option ThinkingWire

-- `hasReply`.
unfoldable pub has_reply : List ContentPart → Bool
has_reply [] = false
has_reply (p ∷ ps) = is_reply p.type || has_reply ps
  where
    is_reply : ContentPartType → Bool
    is_reply ContentPartType.text = true
    is_reply ContentPartType.tool_call = true
    is_reply _ = false

-- What `blocksForParts` has appended, and the budget after it.
pub record Blocks : Type 0 where
  pub results : List Block
  pub others : List Block
  pub budget : CacheBudget

abbrev pub add_other : Block → Blocks → Blocks
add_other b s = record s { others = s.others ++ b ∷ [] }

-- The state of `buildMessages`.
pub record Building : Type 0 where
  pub out : List MessageParam
  pub user_buf : List Block
  pub budget : CacheBudget

-- `flush`.
unfoldable pub flush : Building → Building
flush s = if is_empty s.user_buf then s else record s {
  out = s.out ++ record { role = Side.user; content = s.user_buf } ∷ [];
  user_buf = [];
}

-- The message of a text part: with a marker if it asks for one and the budget honors it.
unfoldable pub add_text : String → Bool → Blocks → Blocks
unfolding honor
add_text t marked s =
    let (keep, b) = honor s.budget in
    if marked
    then add_other (Block.text t keep) (record s { budget = b })
    else add_other (Block.text t false) s

module _ (codec : ThinkingCodec) where
  -- The `switch` of `thinkingBlockParam` on the decoded type.
  unfoldable pub block_of_wire : ThinkingType → ThinkingWire → Converted Block
  block_of_wire ThinkingType.thinking w =
      if str_eq w.signature ""
      then err BadRequest.no_signature
      else ok (Block.thinking w.signature w.thinking)
  block_of_wire ThinkingType.redacted_thinking w =
      if str_eq w.data_text "" then err BadRequest.no_data else ok (Block.redacted w.data_text)
  block_of_wire (ThinkingType.other t) w = err (BadRequest.unknown_block t)

  -- `thinkingBlockParam`.
  unfoldable pub thinking_block_param : Option Reasoning → Converted Block
  unfolding block_of_wire
  thinking_block_param none = err BadRequest.nil_reasoning
  thinking_block_param (some r) = elim (codec.unmarshal r.provider_data) [
    | none ↦ err BadRequest.malformed_reasoning
    | some w ↦ block_of_wire w.type w
  ]

  -- The `switch` of `blocksForParts`.
  unfoldable pub add_part : ContentPartType → ContentPart → Blocks → Converted Blocks
  unfolding add_text thinking_block_param
  add_part ContentPartType.text p s =
      if str_eq p.text ""
      then err BadRequest.empty_text
      else ok (add_text p.text p.cache_breakpoint s)
  add_part ContentPartType.tool_call p s = elim p.tool_call [
    | none ↦ err BadRequest.nil_tool_call
    | some c ↦ ok (add_other (Block.tool_use c.id c.parameters c.name) s)
  ]
  add_part ContentPartType.tool_result p s = elim p.tool_result [
    | none ↦ err BadRequest.nil_tool_result
    | some r ↦ ok (record s {
      results = s.results ++ Block.tool_result r.tool_call_id r.content r.is_error ∷ [];
    })
  ]
  add_part ContentPartType.reasoning p s =
      thinking_block_param p.reasoning >>= λ b. ok (add_other b s)
  add_part (ContentPartType.other t) p s = err (BadRequest.unknown_part (ContentPartType.other t))

  unfoldable pub add_parts : List ContentPart → Blocks → Converted Blocks
  unfolding add_part
  add_parts [] s = ok s
  add_parts (p ∷ ps) s = add_part p.type p s >>= add_parts ps

  -- `blocksForParts`.
  unfoldable pub blocks_for_parts : List ContentPart → CacheBudget → Converted Blocks
  unfolding add_parts
  blocks_for_parts parts b = add_parts parts (record { results = []; others = []; budget = b })

  -- The `switch` of `buildMessages` on the role.
  unfoldable pub add_turn : Role → List ContentPart → Blocks → Building → Converted Building
  unfolding flush has_reply
  add_turn Role.assistant parts bs s = do
    refuse (not (has_reply parts)) BadRequest.nothing_said
    ok (record (flush s) {
      out = (flush s).out ++ record { role = Side.assistant; content = bs.others } ∷ [];
      budget = bs.budget;
    })
  add_turn Role.user parts bs s =
      ok (record s { user_buf = s.user_buf ++ (bs.results ++ bs.others); budget = bs.budget })
  add_turn Role.tool parts bs s =
      ok (record s { user_buf = s.user_buf ++ (bs.results ++ bs.others); budget = bs.budget })
  add_turn (Role.other r) parts bs s = err (BadRequest.unknown_role (Role.other r))

  unfoldable pub add_message : Message → Building → Converted Building
  unfolding blocks_for_parts add_turn
  add_message m s = do bs ← blocks_for_parts m.content s.budget; add_turn m.role m.content bs s

  unfoldable pub add_messages : List Message → Building → Converted Building
  unfolding add_message
  add_messages [] s = ok s
  add_messages (m ∷ ms) s = add_message m s >>= add_messages ms
