-- ===== src/Toolloop/Calls.antt =====
-- llms/toolloop/run.go: isEmptyResponse, dispatch and executeCalls. The clones that guard byte
-- buffers against writes have no counterpart: values here cannot be written to.
pub mod Answering
use maestro_llms.Base.{
  ℕ, String, Bool, true, false, not, ◌&&◌, ◌||◌, Option, none, some, List, [], ◌∷◌, map,
  append_text, if◌then◌else◌, is_empty, str_eq,
}
use maestro_llms.Base.Int.{ℤ, pos, ◌-ℤ◌, clamp64, sub64}
use maestro_llms.Llms.Errors.{GoError, is_nil}
use maestro_llms.Llms.Usage.{Usage, zero_usage}
use maestro_llms.Llms.Message.{
  Message, ToolCall, ToolResult as CallResult, ContentPart, ContentPartType, ChatResponse,
  is_text_type, is_reasoning_type,
}
use maestro_llms.Toolloop.Types.{
  Ambient, Config, Tool, ToolResult, ToolCallEvent, Outcome, OutcomeKind,
}
use maestro_llms.Toolloop.Config.{find_tool}
use maestro_llms.Toolloop.Stops.{classify_stop}

-- The loop of `isEmptyResponse`.
unfoldable pub says_nothing : List ContentPart → Bool
says_nothing [] = true
says_nothing (p ∷ ps) =
    let rest = says_nothing ps in
    if is_reasoning_type p.type
    then rest
    else if not (is_text_type p.type) || not (str_eq p.text "")
    then false
    else rest

-- `isEmptyResponse`.
unfoldable pub is_empty_response : ChatResponse → Bool
unfolding says_nothing
is_empty_response resp =
    if not (is_empty resp.tool_calls) then false else says_nothing resp.message.content

-- `terminalStop`.
pub record TerminalStop : Type 0 where
  pub call : ToolCall
  pub result : ToolResult

-- What `executeCalls` returns: the results and the terminal call, or the Outcome of a stop.
pub data Executed : Type 0 where
  results : List CallResult → Option TerminalStop → Executed
  stopped : Outcome → Executed

-- `results[i] = …` before the results of the later calls.
abbrev pub prepend : CallResult → Executed → Executed
prepend r (Executed.results rs t) = Executed.results (r ∷ rs) t
prepend r (Executed.stopped o) = Executed.stopped o

-- The result of a call that nothing ran.
abbrev no_result : ToolResult
no_result = record { content = ""; is_error = false; stop = false }

module _ {W : Type 0} (amb : Ambient W) where
  -- The call of a tool's Execute. A nil Execute is a panic, which validateConfig rules out.
  run_execute :
      Option (ToolCall → W → ToolResult × GoError × W) → ToolCall → W → ToolResult × GoError × W
  run_execute none call w = (no_result, GoError.opaque "panic: Execute is nil" GoError.nil, w)
  run_execute (some execute) call w = execute call w

  run_tool : Option (Tool W) → ToolCall → W → ToolResult × GoError × W
  unfolding run_execute
  run_tool none call w =
      let text = append_text "tool " (append_text (amb.quote call.name) " is not available") in
      (record { content = text; is_error = true; stop = false }, GoError.nil, w)
  run_tool (some tool) call w = run_execute tool.execute call w

  -- `dispatch`, on the index that `indexTools` made.
  unfoldable pub dispatch : ToolCall → List (Tool W) → W → ToolResult × GoError × W
  unfolding run_tool find_tool
  dispatch call index w = run_tool (find_tool index call.name) call w

  -- The result that a call after the terminal one gets.
  unfoldable pub skipped : String → ToolCall → CallResult
  skipped terminal call = record {
    tool_call_id = call.id;
    content = append_text "not executed: tool loop ended by " (amb.quote terminal);
    is_error = true;
  }

  -- `cfg.OnToolCall(…)` where it is set.
  notify : Option (ToolCallEvent → W → W) → ToolCallEvent → W → W
  notify none event w = w
  notify (some f) event w = f event w

  -- The error of a call: its own, or that of a result with both Stop and IsError.
  unfoldable pub call_error : ToolResult → GoError → GoError
  call_error result exec_err =
      if is_nil exec_err && (result.stop && result.is_error)
      then GoError.opaque "toolloop: ToolResult with both Stop and IsError set" GoError.nil
      else exec_err

  -- The part of one round of `executeCalls` up to its error check: the tool's result, the error
  -- and the world after the observer. `time.Since` is clamped to a Duration.
  unfoldable pub attempt : Config W → ℤ → List (Tool W) → ToolCall → W → ToolResult × GoError × W
  unfolding dispatch notify call_error sub64 ◌-ℤ◌
  attempt cfg iter_idx index call w =
      let (result, exec_err, w1) = dispatch call index w in
      let event : ToolCallEvent = record {
        err = exec_err;
        call = call;
        result = result;
        latency = clamp64 (amb.now w1 -ℤ amb.now w);
        iteration = sub64 iter_idx (pos 1);
      } in
      (result, call_error result exec_err, notify cfg.on_tool_call event w1)

  -- The Outcome of a failed call.
  unfoldable pub call_failed : ChatResponse → List Message → Usage → ℤ → GoError → W → Outcome
  unfolding classify_stop
  call_failed resp transcript usage iter_idx exec_err w =
      let (kind, err) = classify_stop (amb.ctx w) exec_err OutcomeKind.tool_error in
      record {
        response = resp;
        err = err;
        terminal_call = none;
        total_usage = usage;
        compaction_usage = zero_usage;
        terminal_result = none;
        kind = kind;
        messages = transcript;
        iterations = iter_idx;
        compactions = 0;
      }

  -- `executeCalls`, over the calls that are left.
  unfoldable pub execute_calls :
      Config W
      → ChatResponse
      → ℤ
      → List (Tool W)
      → List Message
      → Usage
      → List ToolCall
      → W
      → Executed × W
  unfolding attempt call_failed skipped
  execute_calls cfg resp iter_idx index transcript usage [] w = (Executed.results [] none, w)
  execute_calls cfg resp iter_idx index transcript usage (call ∷ calls) w =
      let (result, exec_err, w') = attempt cfg iter_idx index call w in
      let answer : CallResult = record {
        tool_call_id = call.id;
        content = result.content;
        is_error = result.is_error;
      } in
      let later = execute_calls cfg resp iter_idx index transcript usage calls w' in
      if not (is_nil exec_err)
      then (Executed.stopped (call_failed resp transcript usage iter_idx exec_err w'), w')
      else if result.stop
      then (
        Executed.results (answer ∷ map (skipped call.name) calls)
            (some (record { call = call; result = result })),
        w',
      )
      else (prepend answer later.0, later.1)
