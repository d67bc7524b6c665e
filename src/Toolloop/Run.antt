-- ===== src/Toolloop/Run.antt =====
-- llms/toolloop/run.go: Run.
pub mod Transcript
pub mod Limit
use maestro_llms.Base.{
  ℕ, zero, suc, String, Bool, true, false, not, ◌&&◌, ◌==◌, Option, none, some, List, [], ◌∷◌, ◌++◌,
  Result, ok, err, if◌then◌else◌, length,
}
use maestro_llms.Base.Int.{ℤ, pos, negsuc, ltb_ℤ, leb_ℤ, eqb_ℤ, add64, ◌+ℤ◌}
use maestro_llms.Llms.Errors.{GoError}
use maestro_llms.Llms.Reasons.{BadConfig}
use maestro_llms.Llms.Usage.{Usage, zero_usage}
use maestro_llms.Llms.Message.{
  Message, ToolCall, ToolDefinition, ToolChoice, ChatRequest, ChatResponse, tool_result_message,
}
use maestro_llms.Toolloop.Types.{
  Ambient, Config, Tool, ToolResult, IterationEvent, CompactionState, Outcome, OutcomeKind,
  UsageSum, no_usage, no_response,
}
use maestro_llms.Toolloop.Config.{validate_config, index_tools}
use maestro_llms.Toolloop.Calls.{Executed, TerminalStop, is_empty_response, execute_calls}
use maestro_llms.Toolloop.Compaction.{Sent, add_usage, send}

abbrev default_max_iterations : ℤ
default_max_iterations = pos 8

-- MaxIterations with its default.
unfoldable pub effective_max : ℤ → ℤ
effective_max n = if eqb_ℤ n (pos 0) then default_max_iterations else n

-- The variables of the loop.
pub record Loop : Type 0 where
  pub transcript : List Message
  pub usage : UsageSum
  pub last_response : ChatResponse
  pub iter_idx : ℤ
  pub compaction : CompactionState

-- The Outcome of a stop, with the usage and the count that the deferred function fills in.
unfoldable pub stop_with : Loop → OutcomeKind → ChatResponse → GoError → Outcome
stop_with s kind resp e = record {
  response = resp;
  err = e;
  terminal_call = none;
  total_usage = s.usage.total;
  compaction_usage = s.compaction.usage.total;
  terminal_result = none;
  kind = kind;
  messages = s.transcript;
  iterations = s.iter_idx;
  compactions = s.compaction.count;
}

-- A round of the loop stops, or goes on.
pub data Round : Type 0 where
  stop : Outcome → Round
  continue : Loop → Round

-- `limited && iterIdx >= maxIter`.
unfoldable pub at_limit : ℤ → ℤ → Bool
at_limit max iter_idx = ltb_ℤ (pos 0) max && leb_ℤ max iter_idx

-- What follows a round.
follow : {W : Type 0} → (Loop → W → Option (Outcome × W)) → Round × W → Option (Outcome × W)
follow next (Round.stop out, w) = some (out, w)
follow next (Round.continue s, w) = next s w

module _ {W : Type 0} (amb : Ambient W) (cfg : Config W) (max : ℤ) (index : List (Tool W)) where
  -- Steps 14 to 17.
  unfoldable pub after_calls : Loop → ChatResponse → Executed → Round
  unfolding stop_with
  after_calls s resp (Executed.stopped out) =
      Round.stop (record out {
        compaction_usage = s.compaction.usage.total;
        compactions = s.compaction.count;
      })
  after_calls s resp (Executed.results rs (some t)) =
      let s' = record s { transcript = s.transcript ++ tool_result_message rs ∷ [] } in
      Round.stop (record (stop_with s' OutcomeKind.terminal_tool resp GoError.nil) {
        terminal_call = some t.call;
        terminal_result = some t.result;
      })
  after_calls s resp (Executed.results rs none) =
      let s' = record s { transcript = s.transcript ++ tool_result_message rs ∷ [] } in
      if at_limit max s.iter_idx
      then Round.stop (stop_with s' OutcomeKind.max_iterations resp GoError.nil)
      else Round.continue s'

  -- `cfg.OnIteration(…)` where it is set.
  observe : Option (IterationEvent → W → W) → IterationEvent → W → W
  observe none event w = w
  observe (some f) event w = f event w

  -- Steps 10 to 17, for a response with tool calls that is in the transcript.
  unfoldable pub run_calls : Loop → ChatResponse → W → Round × W
  unfolding after_calls
  run_calls s resp w =
      let s' = record s { iter_idx = add64 s.iter_idx (pos 1) } in
      let (ex, w') =
        execute_calls amb cfg resp s'.iter_idx index s'.transcript s'.usage.total resp.tool_calls
          w in
      (after_calls s' resp ex, w')

  -- Steps 6 to 17, for the response of a call that succeeded.
  unfoldable pub on_response : Loop → ChatResponse → W → Round × W
  unfolding stop_with observe
  on_response s resp w =
      let empty = is_empty_response resp in
      let s' = record s {
        usage = add_usage s.usage resp.usage;
        transcript = if empty then s.transcript else s.transcript ++ resp.message ∷ [];
        last_response = resp;
      } in
      let event : IterationEvent = record {
        response = resp;
        index = s.iter_idx;
        num_tool_calls = length resp.tool_calls;
      } in
      let w' = observe cfg.on_iteration event w in
      let calls = run_calls s' resp w' in
      if empty
      then (Round.stop (stop_with s' OutcomeKind.empty_response resp GoError.nil), w')
      else if length resp.tool_calls == 0
      then (Round.stop (stop_with s' OutcomeKind.final_answer resp GoError.nil), w')
      else calls

  -- Step 5, or steps 6 to 17.
  on_sent : Loop → Sent → Option (OutcomeKind × GoError) → W → Round × W
  unfolding stop_with
  on_sent s sent (some (kind, e)) w = (Round.stop (stop_with s kind s.last_response e), w)
  on_sent s sent none w = on_response s sent.response w

  module _ (complete : ChatRequest → W → ChatResponse × GoError × W) (tools : List ToolDefinition)
      (choice : ToolChoice) where
    -- One round of the loop of `Run`.
    unfoldable pub round : Loop → W → Round × W
    unfolding on_sent
    round s w =
        let req = record cfg.request {
          messages = s.transcript;
          tools = tools;
          tool_choice = choice;
        } in
        let (sent, c, w') =
          send amb complete s.last_response.usage req cfg.compact s.compaction w in
        on_sent (record s { transcript = sent.messages; compaction = c }) sent sent.stop w'

    -- The loop, on fuel: `none` means that the fuel ran out.
    unfoldable pub loop : ℕ → Loop → W → Option (Outcome × W)
    unfolding follow
    loop zero s w = none
    loop (suc fuel) s w = follow (loop fuel) (round s w)

-- The Outcome of a rejected Config.
unfoldable pub rejected : BadConfig → Outcome
unfolding stop_with
rejected reason = record {
  response = no_response;
  err = GoError.config_error reason;
  terminal_call = none;
  total_usage = zero_usage;
  compaction_usage = zero_usage;
  terminal_result = none;
  kind = OutcomeKind.tool_error;
  messages = [];
  iterations = pos 0;
  compactions = 0;
}

-- The variables before the first round.
abbrev pub start : List Message → Loop
start msgs = record {
  transcript = msgs;
  usage = no_usage;
  last_response = no_response;
  iter_idx = pos 0;
  compaction = record { usage = no_usage; count = 0 };
}

module _ {W : Type 0} (amb : Ambient W) where
  run_client :
      Option (ChatRequest → W → ChatResponse × GoError × W)
      → ℕ
      → Config W
      → List ToolDefinition × ToolChoice
      → W
      → Option (Outcome × W)
  unfolding rejected
  run_client none fuel cfg valid w = some (rejected BadConfig.client_required, w)
  run_client (some complete) fuel cfg (tools, choice) w =
      loop amb cfg (effective_max cfg.max_iterations) (index_tools cfg.tools []) complete tools
        choice fuel (start cfg.request.messages) w

  -- `Run`, with fuel for its loop.
  unfoldable pub run : ℕ → Config W → W → Option (Outcome × W)
  unfolding run_client
  run fuel cfg w = elim (validate_config cfg) [
    | err reason ↦ some (rejected reason, w)
    | ok valid ↦ run_client cfg.client fuel cfg valid w
  ]
