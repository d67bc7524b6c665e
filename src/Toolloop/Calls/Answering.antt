-- ===== src/Toolloop/Calls/Answering.antt =====
-- llms/toolloop/run.go: executeCalls answers every call of the turn, in order.
use maestro_llms.Base.{
  ◌≡◌, refl, ap, String, Bool, true, false, List, [], ◌∷◌, map, arith, Bool-cases, inl, inr,
}
use maestro_llms.Base.Int.{ℤ}
use maestro_llms.Llms.Errors.{GoError, is_nil}
use maestro_llms.Llms.Usage.{Usage}
use maestro_llms.Llms.Message.{Message, ToolCall, ToolResult as CallResult, ChatResponse}
use maestro_llms.Toolloop.Types.{Ambient, Config, Tool, OutcomeKind}
use maestro_llms.Toolloop.Stops.{classify_stop}
use maestro_llms.Toolloop.Calls.{Executed, prepend, attempt, skipped, call_failed, execute_calls}
use maestro_llms.Toolloop.Turns.{ids_of, answered}

-- The kinds whose Messages end in a turn that is complete.
abbrev pub settles : OutcomeKind → Bool
settles OutcomeKind.tool_error = false
settles OutcomeKind.canceled = false
settles OutcomeKind.deadline = false
settles _ = true

-- The results name the calls, one by one; a stop is by an error or the context.
abbrev pub Answers : List ToolCall → Executed → Type 0
Answers calls (Executed.results rs t) = answered rs ≡ ids_of calls
Answers calls (Executed.stopped o) = settles o.kind ≡ false

module _ {W : Type 0} (amb : Ambient W) (cfg : Config W) (resp : ChatResponse) (iter_idx : ℤ)
    (index : List (Tool W)) (transcript : List Message) (usage : Usage) where
  answered-skipped :
      (name : String) (cs : List ToolCall) → answered (map (skipped amb name) cs) ≡ ids_of cs
  unfolding skipped
  answered-skipped name [] = refl
  answered-skipped name (c ∷ cs) = ap (◌∷◌ c.id) (answered-skipped name cs)

  call_failed-kind :
      (e : GoError) (w : W)
      → settles (call_failed amb resp transcript usage iter_idx e w).kind ≡ false
  unfolding call_failed classify_stop
  call_failed-kind e w = ground arith

  prepend-Answers :
      (c : ToolCall) (cs : List ToolCall) (r : CallResult) (ex : Executed)
      → r.tool_call_id ≡ c.id
      → Answers cs ex
      → Answers (c ∷ cs) (prepend r ex)
  prepend-Answers c cs r (Executed.results rs t) e a = ground arith
  prepend-Answers c cs r (Executed.stopped o) e a = a

  -- Whatever the tools do, `executeCalls` answers the calls of the turn in order, or ends with an
  -- Outcome of the kind tool_error, canceled or deadline.
  pub execute_calls-Answers :
      (calls : List ToolCall) (w : W)
      → Answers calls (execute_calls amb cfg resp iter_idx index transcript usage calls w).0
  unfolding execute_calls
  execute_calls-Answers [] w = refl
  execute_calls-Answers (c ∷ cs) w =
      let (result, e, w') = attempt amb cfg iter_idx index c w in
      let ih = execute_calls-Answers cs w' in
      elim (Bool-cases (is_nil e)) [
        | inl ok_call ↦ elim (Bool-cases result.stop) [
          | inl stops ↦ rw (ok_call, stops) (ap (◌∷◌ c.id) (answered-skipped c.name cs))
          | inr goes_on ↦
              rw (ok_call, goes_on)
                (prepend-Answers c cs _
                  (execute_calls amb cfg resp iter_idx index transcript usage cs w').0 refl ih)
        ]
        | inr failed ↦ rw failed (call_failed-kind e w')
      ]
