-- ===== src/Toolloop/Run/Limit.antt =====
-- llms/toolloop/run.go: a run with an iteration limit ends.
use maestro_llms.Base.{
  ℕ, zero, subst, ◌∙◌, suc, ◌+◌, ◌≤◌, ◌≡◌, ◌≢◌, refl, true, false, Option, none, some, List, [],
  ◌∷◌, arith, Bool-cases, inl, inr, ◌⊎◌, Result-cases, length, ◌==◌,
}
use maestro_llms.Base.Int.{ℤ, pos, pos_part, ◌≤ℤ◌, ◌<ℤ◌, ◌+ℤ◌, add64, add64_exact, max_int}
use maestro_llms.Llms.Errors.{GoError, is_nil}
use maestro_llms.Llms.Usage.{Usage}
use maestro_llms.Llms.Message.{
  Message, ToolCall, ToolResult as CallResult, ToolDefinition, ToolChoice, ChatRequest,
  ChatResponse,
}
use maestro_llms.Toolloop.Types.{Ambient, Config, Tool, Outcome, OutcomeKind}
use maestro_llms.Toolloop.Config.{validate_config, index_tools}
use maestro_llms.Toolloop.Stops.{classify_stop}
use maestro_llms.Toolloop.Calls.{
  Executed, is_empty_response, execute_calls, call_failed, attempt, prepend,
}
use maestro_llms.Toolloop.Compaction.{Sent, send}
use maestro_llms.Toolloop.Compaction.Sending.{send-Delivers, send_kind}
use maestro_llms.Toolloop.Run.{
  Loop, Round, at_limit, follow, stop_with, after_calls, run_calls, on_response, on_sent, round,
  loop, run_client, run, effective_max, rejected,
}

-- What a round that begins at `idx` does to the count of iterations.
abbrev Counts : ℤ → ℤ → Round → Type 0
Counts max idx (Round.stop o) =
    ((o.iterations ≡ idx) ⊎ (o.iterations ≡ add64 idx (pos 1)))
    × (o.kind ≡ OutcomeKind.max_iterations
        → (o.iterations ≡ add64 idx (pos 1)) × (at_limit max o.iterations ≡ true))
Counts max idx (Round.continue s) =
    (s.iter_idx ≡ add64 idx (pos 1)) × (at_limit max s.iter_idx ≡ false)

-- An Outcome of executeCalls has the iteration that it was given, and another kind.
abbrev Stops : ℤ → Executed → Type 0
Stops idx (Executed.results rs t) = Unit
Stops idx (Executed.stopped o) = (o.iterations ≡ idx) × (o.kind ≢ OutcomeKind.max_iterations)

prepend-Stops : (idx : ℤ) (r : CallResult) (ex : Executed) → Stops idx ex → Stops idx (prepend r ex)
prepend-Stops idx r (Executed.results rs t) h = tt
prepend-Stops idx r (Executed.stopped o) h = h

module _ {W : Type 0} (amb : Ambient W) (cfg : Config W) (index : List (Tool W)) where
  call_failed-Stops :
      (r : ChatResponse) (idx : ℤ) (ts : List Message) (u : Usage) (e : GoError) (w : W)
      → Stops idx (Executed.stopped (call_failed amb r ts u idx e w))
  unfolding call_failed classify_stop
  call_failed-Stops r idx ts u e w = ground arith

  execute_calls-Stops :
      (r : ChatResponse) (idx : ℤ) (ts : List Message) (u : Usage) (cs : List ToolCall) (w : W)
      → Stops idx (execute_calls amb cfg r idx index ts u cs w).0
  unfolding execute_calls
  execute_calls-Stops r idx ts u [] w = tt
  execute_calls-Stops r idx ts u (c ∷ cs) w =
      let (result, e, w') = attempt amb cfg idx index c w in
      let ih = execute_calls-Stops r idx ts u cs w' in
      elim (Bool-cases (is_nil e)) [
        | inl fine ↦ elim (Bool-cases result.stop) [
          | inl stops ↦ rw (fine, stops) tt
          | inr goes_on ↦ rw (fine, goes_on) (prepend-Stops idx _ _ ih)
        ]
        | inr failed ↦ rw failed (call_failed-Stops r idx ts u e w')
      ]

  module _ (max : ℤ) where
    after_calls-Counts :
        (idx : ℤ) (s : Loop) (r : ChatResponse) (ex : Executed)
        → s.iter_idx ≡ add64 idx (pos 1)
        → Stops s.iter_idx ex
        → Counts max idx (after_calls amb cfg max index s r ex)
    unfolding after_calls stop_with
    after_calls-Counts idx s r (Executed.stopped o) e h = ground arith
    after_calls-Counts idx s r (Executed.results rs (some t)) e h = ground arith
    after_calls-Counts idx s r (Executed.results rs none) e h =
        elim (Bool-cases (at_limit max s.iter_idx)) [
          | inl limit ↦ rw limit (inr e, λ k. (e, limit))
          | inr below ↦ rw below (e, below)
        ]

    on_response-Counts :
        (s : Loop) (r : ChatResponse) (w : W)
        → Counts max s.iter_idx (on_response amb cfg max index s r w).0
    unfolding on_response run_calls stop_with
    on_response-Counts s r w = elim (Bool-cases (is_empty_response r)) [
      | inl empty ↦ rw empty (inl refl, λ k. cc)
      | inr full ↦ elim (Bool-cases (length r.tool_calls == 0)) [
        | inl none_called ↦ rw (full, none_called) (inl refl, λ k. cc)
        | inr called ↦
            rw (full, called)
              (after_calls-Counts s.iter_idx _ r _ refl
                (execute_calls-Stops r _ _ _ r.tool_calls _))
      ]
    ]

    on_sent-Counts :
        (s : Loop) (sent : Sent) (o : Option (OutcomeKind × GoError)) (w : W)
        → ((k : OutcomeKind × GoError) → o ≡ some k → send_kind k.0 ≡ true)
        → Counts max s.iter_idx (on_sent amb cfg max index s sent o w).0
    unfolding on_sent stop_with
    on_sent-Counts s sent (some (kind, e)) w h =
        (inl refl, λ k. absurd (ground (arith, h (kind, e) refl)))
    on_sent-Counts s sent none w h = on_response-Counts s sent.response w

    module _ (complete : ChatRequest → W → ChatResponse × GoError × W) (tools : List ToolDefinition)
        (choice : ToolChoice) where
      round-Counts :
          (s : Loop) (w : W)
          → Counts max s.iter_idx (round amb cfg max index complete tools choice s w).0
      unfolding round
      round-Counts s w =
          let req = record cfg.request {
            messages = s.transcript;
            tools = tools;
            tool_choice = choice;
          } in
          let last = s.last_response.usage in
          let (sent, c, w') = send amb complete last req cfg.compact s.compaction w in
          let d =
            send-Delivers amb complete (λ _. Unit {0}) (λ _. Unit {0}) (λ _ _. tt) (λ _ _ _. tt)
              last req cfg.compact s.compaction w tt in
          on_sent-Counts (record s { transcript = sent.messages; compaction = c }) sent sent.stop w'
            d.stops

-- A loop that ends does so in an Outcome with at least `k` iterations and at most `max`, and with
-- exactly `max` where that is what stopped it.
abbrev pub Ends : {W : Type 0} → ℤ → ℕ → Option (Outcome × W) → Type 0
Ends max k none = ⊥
Ends max k (some (out, w)) =
    (pos k ≤ℤ out.iterations)
    × (out.iterations ≤ℤ max)
    × (out.kind ≡ OutcomeKind.max_iterations → out.iterations ≡ max)

next_index : (max : ℤ) (k : ℕ) → pos k <ℤ max → max ≤ℤ max_int → add64 (pos k) (pos 1) ≡ pos (suc k)
unfolding ◌+ℤ◌
next_index max k h m = add64_exact (pos k) (pos 1) (ground arith) ∙ ground arith

Ends-mono :
    {W : Type 0} (max : ℤ) (k : ℕ) (r : Option (Outcome × W)) → Ends max (suc k) r → Ends max k r
Ends-mono max k none h = h
Ends-mono max k (some (out, w)) h = (omega arith, h.1, h.2)

follow-Ends :
    {W : Type 0} (max : ℤ) (k : ℕ) (next : Loop → W → Option (Outcome × W)) (r : Round) (w : W)
    → pos k <ℤ max
    → max ≤ℤ max_int
    → Counts max (pos k) r
    → ((s : Loop) → s.iter_idx ≡ pos (suc k) → pos (suc k) <ℤ max → Ends max (suc k) (next s w))
    → Ends max k (follow next (r, w))
unfolding follow at_limit
follow-Ends max k next (Round.stop o) w h m c rec = ground (arith, next_index max k h m)
follow-Ends max k next (Round.continue s) w h m c rec =
    let e = c.0 ∙ next_index max k h m in Ends-mono max k (next s w) (rec s e (ground arith))

loop-Ends :
    {W : Type 0} (amb : Ambient W) (cfg : Config W) (index : List (Tool W)) (max : ℤ)
    (complete : ChatRequest → W → ChatResponse × GoError × W) (tools : List ToolDefinition)
    (choice : ToolChoice) (fuel k : ℕ) (s : Loop) (w : W)
    → s.iter_idx ≡ pos k
    → pos k <ℤ max
    → max ≤ℤ max_int
    → pos_part max ≤ fuel + k
    → Ends max k (loop amb cfg max index complete tools choice fuel s w)
unfolding loop
loop-Ends amb cfg index max complete tools choice zero k s w e h m f = absurd (omega arith)
loop-Ends amb cfg index max complete tools choice (suc fuel) k s w e h m f =
    follow-Ends max k (loop amb cfg max index complete tools choice fuel)
      (round amb cfg max index complete tools choice s w).0 _ h m
      (subst (λ i. Counts max i (round amb cfg max index complete tools choice s w).0) e
        (round-Counts amb cfg index max complete tools choice s w))
      (λ s2 e2 h2.
        loop-Ends amb cfg index max complete tools choice fuel (suc k) s2 _ e2 h2 m (omega arith))

run_client-Ends :
    {W : Type 0} (amb : Ambient W) (cfg : Config W)
    (client : Option (ChatRequest → W → ChatResponse × GoError × W)) (fuel : ℕ)
    (valid : List ToolDefinition × ToolChoice) (w : W)
    → pos 0 <ℤ effective_max cfg.max_iterations
    → effective_max cfg.max_iterations ≤ℤ max_int
    → pos_part (effective_max cfg.max_iterations) ≤ fuel
    → Ends (effective_max cfg.max_iterations) 0 (run_client amb client fuel cfg valid w)
unfolding run_client rejected
run_client-Ends amb cfg none fuel valid w h m f = ground arith
run_client-Ends amb cfg (some complete) fuel (tools, choice) w h m f =
    loop-Ends amb cfg (index_tools cfg.tools []) _ complete tools choice fuel 0 _ w refl h m
      (omega arith)

-- A run whose limit is positive (MaxIterations, or 8 where that is zero) always returns an Outcome,
-- with as much fuel as the limit. It counts no more tool-calling iterations than the limit, and just
-- as many where its kind is max_iterations.
pub run-Ends :
    {W : Type 0} (amb : Ambient W) (cfg : Config W) (fuel : ℕ) (w : W)
    → pos 0 <ℤ effective_max cfg.max_iterations
    → effective_max cfg.max_iterations ≤ℤ max_int
    → pos_part (effective_max cfg.max_iterations) ≤ fuel
    → Ends (effective_max cfg.max_iterations) 0 (run amb fuel cfg w)
unfolding run rejected
run-Ends amb cfg fuel w h m f = elim (Result-cases (validate_config cfg)) [
  | inl (valid, fine) ↦ rw (fine, run) (run_client-Ends amb cfg cfg.client fuel valid w h m f)
  | inr (r, bad) ↦ rw (bad, run) (ground arith)
]
