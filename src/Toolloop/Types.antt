-- ===== src/Toolloop/Types.antt =====
-- llms/toolloop/types.go, and the loop state of llms/toolloop/run.go. `W` is all that lies outside
-- the loop: what a client, a tool, a hook or an observer reads and changes, the context and the
-- clock included. A func field is a function on it, and a nil func field is `none`.
use maestro_llms.Base.{ℕ, String, Bool, Option, List, []}
use maestro_llms.Base.Int.{ℤ}
use maestro_llms.Llms.Errors.{GoError}
use maestro_llms.Llms.Reasons.{CompactReason}
use maestro_llms.Llms.Usage.{Usage, zero_usage}
use maestro_llms.Llms.Message.{
  Message, Role, ToolCall, ToolDefinition, ToolChoice, ChatRequest, ChatResponse,
}

-- What ctx.Err() says: nil, context.Canceled or context.DeadlineExceeded.
pub data CtxState : Type 0 where
  live canceled deadline : CtxState

-- What the loop reads of the world by itself: ctx.Err() and time.Now(), in nanoseconds; and the
-- text of a name under the verb %q.
pub record Ambient (W : Type 0) : Type 0 where
  pub ctx : W → CtxState
  pub now : W → ℤ
  pub quote : String → String

pub record ToolResult : Type 0 where
  pub content : String
  pub is_error : Bool
  pub stop : Bool

pub record Tool (W : Type 0) : Type 0 where
  pub execute : Option (ToolCall → W → ToolResult × GoError × W)
  pub definition : ToolDefinition

pub record CompactInput : Type 0 where
  pub err : GoError
  pub reason : CompactReason
  pub last_usage : Usage
  pub messages : List Message

-- `none` for nil Messages.
pub record CompactResult : Type 0 where
  pub usage : Usage
  pub messages : Option (List Message)

pub record IterationEvent : Type 0 where
  pub response : ChatResponse
  pub index : ℤ
  pub num_tool_calls : ℕ

pub record ToolCallEvent : Type 0 where
  pub err : GoError
  pub call : ToolCall
  pub result : ToolResult
  pub latency : ℤ
  pub iteration : ℤ

pub record Config (W : Type 0) : Type 0 where
  pub request : ChatRequest
  pub client : Option (ChatRequest → W → ChatResponse × GoError × W)
  pub compact : Option (CompactInput → W → CompactResult × GoError × W)
  pub on_iteration : Option (IterationEvent → W → W)
  pub on_tool_call : Option (ToolCallEvent → W → W)
  pub tool_choice : ToolChoice
  pub tools : List (Tool W)
  pub max_iterations : ℤ

pub data OutcomeKind : Type 0 where
  final_answer empty_response terminal_tool max_iterations llm_error context_exceeded
        compaction_error tool_error canceled deadline :
      OutcomeKind

pub record Outcome : Type 0 where
  pub response : ChatResponse
  pub err : GoError
  pub terminal_call : Option ToolCall
  pub total_usage : Usage
  pub compaction_usage : Usage
  pub terminal_result : Option ToolResult
  pub kind : OutcomeKind
  pub messages : List Message
  pub iterations : ℤ
  pub compactions : ℕ

-- `usageSum`.
pub record UsageSum : Type 0 where
  pub total : Usage
  pub contribs : ℕ

abbrev pub no_usage : UsageSum
no_usage = record { total = zero_usage; contribs = 0 }

-- `compaction`, without the hook, which the Config holds, and the slice capacity.
pub record CompactionState : Type 0 where
  pub usage : UsageSum
  pub count : ℕ

-- The zero ChatResponse.
abbrev pub no_response : ChatResponse
no_response = record {
  message = record { role = Role.other ""; content = [] };
  text = "";
  tool_calls = [];
  stop_reason = "";
  usage = zero_usage;
}
