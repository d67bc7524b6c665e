-- ===== src/Toolloop/Run/Transcript.antt =====
-- llms/toolloop/run.go: Run hands back a transcript that can be sent.
use maestro_llms.Base.{
  ℕ, zero, suc, ◌≡◌, ◌≢◌, refl, subst, true, false, Option, none, some, List, [], ◌∷◌, ◌++◌, arith,
  Bool-cases, inl, inr, ◌⊎◌, ok, Result-cases, length, ◌==◌,
}
use maestro_llms.Base.Int.{ℤ, pos, add64}
use maestro_llms.Llms.Errors.{GoError, is_nil}
use maestro_llms.Llms.Message.{
  Message, ToolCall, ToolDefinition, ToolChoice, ChatRequest, ChatResponse,
}
use maestro_llms.Middleware.Validation.{validate_messages}
use maestro_llms.Middleware.Validation.Pairing.{validate_messages-Conversation}
use maestro_llms.Toolloop.Types.{Ambient, Config, Tool, Outcome, OutcomeKind}
use maestro_llms.Toolloop.Config.{validate_config, index_tools}
use maestro_llms.Toolloop.Calls.{Executed, is_empty_response, execute_calls}
use maestro_llms.Toolloop.Calls.Answering.{settles, Answers, execute_calls-Answers}
use maestro_llms.Toolloop.Compaction.{Sent, send}
use maestro_llms.Toolloop.Compaction.Sending.{Delivers, send-Delivers}
use maestro_llms.Toolloop.Turns.{GoodResponse, Sendable, final_turn, call_turn}
use maestro_llms.Toolloop.Run.{
  at_limit, follow, Loop, Round, stop_with, after_calls, run_calls, on_response, on_sent, round,
  loop, run_client, run, start, effective_max, rejected,
}

-- What a round leaves: a transcript that can be sent, unless a tool or the context stopped it.
abbrev Keeps : Round → Type 0
Keeps (Round.stop o) = settles o.kind ≡ true → Sendable o.messages
Keeps (Round.continue s) = Sendable s.transcript

follow-Keeps :
    {W : Type 0} (next : Loop → W → Option (Outcome × W)) {out : Outcome} {w' : W}
    → ((s : Loop) (w : W)
        → Sendable s.transcript
        → next s w ≡ some (out, w')
        → Sendable out.messages)
    → (r : Round) (w : W) → Keeps r
    → follow next (r, w) ≡ some (out, w')
    → settles out.kind ≡ true
    → Sendable out.messages
unfolding follow
follow-Keeps next {out} rec (Round.stop o) w keeps e k =
    let same : o ≡ out = cc in subst (λ x. settles x.kind ≡ true → Sendable x.messages) same keeps k
follow-Keeps next rec (Round.continue s) w keeps e k = rec s w keeps e

module _ {W : Type 0} (amb : Ambient W) (cfg : Config W) (max : ℤ) (index : List (Tool W)) where
  after_calls-Keeps :
      (s : Loop) (ts : List Message) (r : ChatResponse) (ex : Executed)
      → s.transcript ≡ ts ++ r.message ∷ []
      → Sendable ts
      → GoodResponse r
      → is_empty_response r ≡ false
      → r.tool_calls ≢ []
      → Answers r.tool_calls ex
      → Keeps (after_calls amb cfg max index s r ex)
  unfolding after_calls stop_with
  after_calls-Keeps s ts r (Executed.stopped o) e h g full called a = λ k. cc
  after_calls-Keeps s ts r (Executed.results rs (some t)) e h g full called a =
      λ k. rw e (call_turn ts r rs h g full called a)
  after_calls-Keeps s ts r (Executed.results rs none) e h g full called a =
      elim (Bool-cases (at_limit max s.iter_idx)) [
        | inl limit ↦ rw (limit, e) (λ k. call_turn ts r rs h g full called a)
        | inr below ↦ rw (below, e) (call_turn ts r rs h g full called a)
      ]

  run_calls-Keeps :
      (s : Loop) (ts : List Message) (r : ChatResponse) (w : W)
      → s.transcript ≡ ts ++ r.message ∷ []
      → Sendable ts
      → GoodResponse r
      → is_empty_response r ≡ false
      → r.tool_calls ≢ []
      → Keeps (run_calls amb cfg max index s r w).0
  unfolding run_calls
  run_calls-Keeps s ts r w e h g full called =
      let next = add64 s.iter_idx (pos 1) in
      after_calls-Keeps (record s { iter_idx = next }) ts r
        (execute_calls amb cfg r next index s.transcript s.usage.total r.tool_calls w).0 e h g full
        called
        (execute_calls-Answers amb cfg r next index s.transcript s.usage.total r.tool_calls w)

  no_call_cases :
      (cs : List ToolCall)
      → ((length cs == 0) ≡ true) × (cs ≡ []) ⊎ ((length cs == 0) ≡ false) × (cs ≢ [])
  no_call_cases [] = inl (refl, refl)
  no_call_cases (c ∷ cs) = inr (ground arith, λ e. cc)

  on_response-Keeps :
      (s : Loop) (r : ChatResponse) (w : W)
      → Sendable s.transcript
      → GoodResponse r
      → Keeps (on_response amb cfg max index s r w).0
  unfolding on_response stop_with
  on_response-Keeps s r w h g = elim (Bool-cases (is_empty_response r)) [
    | inl empty ↦ rw empty (λ k. h)
    | inr full ↦ elim (no_call_cases r.tool_calls) [
      | inl (none_called, e) ↦ rw (full, none_called) (λ k. final_turn s.transcript r h g full e)
      | inr (called, ne) ↦ rw (full, called) (run_calls-Keeps _ s.transcript r _ refl h g full ne)
    ]
  ]

  module _ (complete : ChatRequest → W → ChatResponse × GoError × W)
      (good : (req : ChatRequest) (w : W)
        → is_nil (complete req w).1 ≡ true
        → GoodResponse (complete req w).0)
      (tools : List ToolDefinition) (choice : ToolChoice) where
    on_sent-Keeps :
        (s : Loop) (sent : Sent) (o : Option (OutcomeKind × GoError)) (w : W)
        → sent.stop ≡ o
        → Sendable s.transcript
        → Delivers Sendable GoodResponse sent
        → Keeps (on_sent amb cfg max index s sent o w).0
    unfolding on_sent stop_with
    on_sent-Keeps s sent (some (kind, e)) w o h d = λ k. h
    on_sent-Keeps s sent none w o h d = on_response-Keeps s sent.response w h (d.good o)

    round-Keeps :
        (s : Loop) (w : W)
        → Sendable s.transcript
        → Keeps (round amb cfg max index complete tools choice s w).0
    unfolding round
    round-Keeps s w h =
        let req = record cfg.request {
          messages = s.transcript;
          tools = tools;
          tool_choice = choice;
        } in
        let (sent, c, w') =
          send amb complete s.last_response.usage req cfg.compact s.compaction w in
        let d =
          send-Delivers amb complete Sendable GoodResponse (λ msgs h. h) good s.last_response.usage
            req cfg.compact s.compaction w h in
        on_sent-Keeps (record s { transcript = sent.messages; compaction = c }) sent sent.stop w'
          refl d.sendable d

    loop-Keeps :
        (fuel : ℕ) (s : Loop) (w : W) {out : Outcome} {w' : W}
        → Sendable s.transcript
        → loop amb cfg max index complete tools choice fuel s w ≡ some (out, w')
        → settles out.kind ≡ true
        → Sendable out.messages
    unfolding loop
    loop-Keeps zero s w h e k = cc
    loop-Keeps (suc fuel) s w h e k =
        follow-Keeps (loop amb cfg max index complete tools choice fuel)
          (λ s2 w2 h2 e2. loop-Keeps fuel s2 w2 h2 e2 k)
          (round amb cfg max index complete tools choice s w).0 _ (round-Keeps s w h) e k

module _ {W : Type 0} (amb : Ambient W) (cfg : Config W) where
  run_client-Keeps :
      (client : Option (ChatRequest → W → ChatResponse × GoError × W))
      → ((complete : ChatRequest → W → ChatResponse × GoError × W)
          → client ≡ some complete
          → (req : ChatRequest) (w : W) → is_nil (complete req w).1 ≡ true
          → GoodResponse (complete req w).0)
      → (fuel : ℕ) (valid : List ToolDefinition × ToolChoice) (w : W) {out : Outcome} {w' : W}
      → Sendable cfg.request.messages
      → run_client amb client fuel cfg valid w ≡ some (out, w')
      → settles out.kind ≡ true
      → Sendable out.messages
  unfolding run_client rejected
  run_client-Keeps none good fuel valid w h e k = absurd (ground arith)
  run_client-Keeps (some complete) good fuel (tools, choice) w h e k =
      loop-Keeps amb cfg (effective_max cfg.max_iterations) (index_tools cfg.tools []) complete
        (good complete refl) tools choice fuel (start cfg.request.messages) w h e k

  -- Where the request's messages pass ValidateMessages and the client's responses are legal
  -- assistant messages with distinct call IDs that `tool_calls` mirrors, the Messages of every
  -- Outcome pass ValidateMessages too, unless its kind is tool_error, canceled or deadline. Nothing
  -- is asked of the tools, the observers and the compaction hook.
  pub run-validate_messages :
      (fuel : ℕ) (w : W) {out : Outcome} {w' : W}
      → ((complete : ChatRequest → W → ChatResponse × GoError × W)
          → cfg.client ≡ some complete
          → (req : ChatRequest) (v : W) → is_nil (complete req v).1 ≡ true
          → GoodResponse (complete req v).0)
      → validate_messages cfg.request.messages ≡ ok tt
      → run amb fuel cfg w ≡ some (out, w')
      → settles out.kind ≡ true
      → validate_messages out.messages ≡ ok tt
  unfolding run rejected
  run-validate_messages fuel w {out} good valid e k =
      (validate_messages-Conversation out.messages).1 (elim (Result-cases (validate_config cfg)) [
        | inl (v, fine) ↦
            run_client-Keeps cfg.client good fuel v w
              ((validate_messages-Conversation cfg.request.messages).0 valid) (rw (fine, run) at e)
              k
        | inr (r, bad) ↦ absurd (ground arith)
      ])
