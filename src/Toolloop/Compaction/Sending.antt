-- ===== src/Toolloop/Compaction/Sending.antt =====
-- llms/toolloop/run.go: what `send` sends.
use maestro_llms.Base.{
  ◌≡◌, refl, true, false, not, Option, none, some, List, arith, Bool-cases, Option-cases, inl, inr,
  ◌⊎◌, Bool, ◌||◌,
}
use maestro_llms.Llms.Errors.{GoError, is_nil}
use maestro_llms.Llms.Reasons.{CompactReason}
use maestro_llms.Llms.Usage.{Usage}
use maestro_llms.Llms.Message.{Message, ChatRequest, ChatResponse}
use maestro_llms.Middleware.Validation.Pairing.{validate_messages-Conversation}
use maestro_llms.Toolloop.Types.{
  Ambient, CompactInput, CompactResult, CompactionState, OutcomeKind, CtxState,
}
use maestro_llms.Toolloop.Stops.{classify_stop, llm_error_kind}
use maestro_llms.Toolloop.Compaction.{
  is_exceeded, Sent, Compacted, check_compacted, judge, run_hook, send, send_loop, send_round,
  on_failure, on_overflow, after_hook, no_round, stop_send,
}
use maestro_llms.Toolloop.Turns.{Sendable}

abbrev pub Hook : Type 0 → Type 0
Hook W = CompactInput → W → CompactResult × GoError × W

-- A transcript that a compaction brings in has been validated.
abbrev Sound : Compacted → Type 0
Sound (Compacted.adopted msgs) = Sendable msgs
Sound _ = Unit

check_compacted-Sendable : (msgs : List Message) → check_compacted msgs ≡ none → Sendable msgs
unfolding check_compacted
check_compacted-Sendable msgs h = (validate_messages-Conversation msgs).0 (ground arith)

judge-Sound :
    (reason : CompactReason) (o : Option (List Message)) (e : GoError) → Sound (judge reason o e)
unfolding judge
judge-Sound reason none e = ground arith
judge-Sound reason (some msgs) e = elim (Bool-cases (is_nil e)) [
  | inl fine ↦ elim (Option-cases (check_compacted msgs)) [
    | inl valid ↦ rw (fine, valid) (check_compacted-Sendable msgs valid)
    | inr (x, bad) ↦ rw (fine, bad) tt
  ]
  | inr failed ↦ rw failed tt
]

run_hook-Sound :
    {W : Type 0} (hook : Hook W) (input : CompactInput) (c : CompactionState) (w : W)
    → Sound (run_hook hook input c w).0
unfolding run_hook
run_hook-Sound hook input c w =
    let (res, e, w') = hook input w in judge-Sound input.reason res.messages e

-- The kinds of a stop that `send` returns.
abbrev pub send_kind : OutcomeKind → Bool
send_kind OutcomeKind.llm_error = true
send_kind OutcomeKind.context_exceeded = true
send_kind OutcomeKind.compaction_error = true
send_kind OutcomeKind.canceled = true
send_kind OutcomeKind.deadline = true
send_kind _ = false

-- What `send` returns, for a property of the transcript and one of the client's responses: both
-- hold, the second unless it stops, and it stops with a kind of its own.
pub record Delivers (P : List Message → Type 0) (Good : ChatResponse → Type 0) (s : Sent)
    : Type 0 where
  pub sendable : P s.messages
  pub good : s.stop ≡ none → Good s.response
  pub stops : (k : OutcomeKind × GoError) → s.stop ≡ some k → send_kind k.0 ≡ true

classify_stop-send_kind :
    (ctx : CtxState) (e : GoError) (fallback : OutcomeKind)
    → send_kind fallback ≡ true
    → send_kind (classify_stop ctx e fallback).0 ≡ true
unfolding classify_stop
classify_stop-send_kind ctx e fallback h = ground arith

llm_error_kind-send_kind : (e : GoError) → send_kind (llm_error_kind e) ≡ true
unfolding llm_error_kind
llm_error_kind-send_kind e = ground arith

module _ {W : Type 0} (amb : Ambient W) (complete : ChatRequest → W → ChatResponse × GoError × W)
    (P : List Message → Type 0) (Good : ChatResponse → Type 0)
    (adopt : (msgs : List Message) → Sendable msgs → P msgs)
    (good : (req : ChatRequest) (w : W)
      → is_nil (complete req w).1 ≡ true
      → Good (complete req w).0)
    (last : Usage) (req : ChatRequest) where
  stop_send-Delivers :
      (msgs : List Message) (s : OutcomeKind × GoError)
      → P msgs
      → send_kind s.0 ≡ true
      → Delivers P Good (stop_send msgs s)
  stop_send-Delivers msgs s h k = record {
    sendable = h;
    good = λ e. cc;
    stops = λ x e. ground arith;
  }

  llm_stop-Delivers :
      (msgs : List Message) (w : W) (e : GoError)
      → P msgs
      → Delivers P Good (stop_send msgs (classify_stop (amb.ctx w) e (llm_error_kind e)))
  llm_stop-Delivers msgs w e h =
      stop_send-Delivers msgs _ h
        (classify_stop-send_kind (amb.ctx w) e (llm_error_kind e) (llm_error_kind-send_kind e))

  compaction_stop-Delivers :
      (msgs : List Message) (w : W) (e : GoError)
      → P msgs
      → Delivers P Good (stop_send msgs (classify_stop (amb.ctx w) e OutcomeKind.compaction_error))
  compaction_stop-Delivers msgs w e h =
      stop_send-Delivers msgs _ h
        (classify_stop-send_kind (amb.ctx w) e OutcomeKind.compaction_error refl)

  -- The next round delivers, or there is none.
  abbrev Goes : Bool → (List Message → CompactionState → W → Sent × CompactionState × W) → Type 0
  Goes retried again =
      (retried ≡ true)
      ⊎ ((msgs : List Message) (c : CompactionState) (w : W)
          → P msgs
          → Delivers P Good (again msgs c w).0)

  on_overflow-Delivers :
      (again : List Message → CompactionState → W → Sent × CompactionState × W)
      → ((msgs : List Message) (c : CompactionState) (w : W)
          → P msgs
          → Delivers P Good (again msgs c w).0)
      → (e : GoError) (msgs : List Message) (v : Compacted) (c : CompactionState) (w : W) → P msgs
      → Sound v
      → Delivers P Good (on_overflow amb complete last req again e msgs (v, c, w)).0
  unfolding on_overflow
  on_overflow-Delivers again next e msgs (Compacted.failed x) c w h v =
      compaction_stop-Delivers msgs w x h
  on_overflow-Delivers again next e msgs Compacted.unchanged c w h v = llm_stop-Delivers msgs w e h
  on_overflow-Delivers again next e msgs (Compacted.adopted msgs') c w h v =
      next msgs' c w (adopt msgs' v)

  on_failure-Delivers :
      (hook : Option (Hook W)) (retried : Bool)
      (again : List Message → CompactionState → W → Sent × CompactionState × W)
      → Goes retried again
      → (e : GoError) (msgs : List Message) (c : CompactionState) (w : W) → P msgs
      → Delivers P Good (on_failure amb complete last req hook retried again e msgs c w).0
  unfolding on_failure
  on_failure-Delivers none retried again next e msgs c w h = llm_stop-Delivers msgs w e h
  on_failure-Delivers (some hook) retried again next e msgs c w h =
      let stop = classify_stop (amb.ctx w) e (llm_error_kind e) in
      let input : CompactInput = record {
        err = stop.1;
        reason = CompactReason.overflow;
        last_usage = last;
        messages = msgs;
      } in
      let (v, c', w') = run_hook hook input c w in
      let ends = llm_stop-Delivers msgs w e h in
      elim (Bool-cases (not (is_exceeded stop.0) || retried)) [
        | inl stops ↦ rw stops ends
        | inr goes_on ↦ elim next [
          | inl r ↦ absurd (ground arith)
          | inr n ↦
              rw goes_on
                (on_overflow-Delivers again n e msgs v c' w' h (run_hook-Sound hook input c w))
        ]
      ]

  send_round-Delivers :
      (hook : Option (Hook W)) (retried : Bool)
      (again : List Message → CompactionState → W → Sent × CompactionState × W)
      → Goes retried again
      → (msgs : List Message) (c : CompactionState) (w : W) → P msgs
      → Delivers P Good (send_round amb complete last req hook retried again msgs c w).0
  unfolding send_round
  send_round-Delivers hook retried again next msgs c w h =
      let (resp, e, w') = complete (record req { messages = msgs }) w in
      elim (Bool-cases (is_nil e)) [
        | inl fine ↦ rw fine (record {
          sendable = h;
          good = λ s. good (record req { messages = msgs }) w fine;
          stops = λ k s. cc;
        })
        | inr failed ↦ rw failed (on_failure-Delivers hook retried again next e msgs c w' h)
      ]

  send_loop-Delivers :
      (hook : Option (Hook W)) (msgs : List Message) (c : CompactionState) (w : W)
      → P msgs
      → Delivers P Good (send_loop amb complete last req hook msgs c w).0
  unfolding send_loop
  send_loop-Delivers hook =
      send_round-Delivers hook false
        (send_round amb complete last req hook true (no_round amb complete last req))
        (inr (send_round-Delivers hook true (no_round amb complete last req) (inl refl)))

  after_hook-Delivers :
      (hook : Option (Hook W)) (msgs : List Message) (v : Compacted) (c : CompactionState) (w : W)
      → P msgs
      → Sound v
      → Delivers P Good (after_hook amb complete last req hook msgs (v, c, w)).0
  unfolding after_hook
  after_hook-Delivers hook msgs (Compacted.failed x) c w h v = compaction_stop-Delivers msgs w x h
  after_hook-Delivers hook msgs Compacted.unchanged c w h v = send_loop-Delivers hook msgs c w h
  after_hook-Delivers hook msgs (Compacted.adopted msgs') c w h v =
      send_loop-Delivers hook msgs' c w (adopt msgs' v)

  -- For a property P of transcripts that has to hold of the messages of the request and that every
  -- transcript which ValidateMessages accepts has, and for a property Good of the responses that the
  -- client returns without an error: with a hook or without, `send` hands back a transcript with P, and
  -- a response with Good unless it stops, and it stops only with a kind of error of its own.
  pub send-Delivers :
      (hook : Option (Hook W)) (c : CompactionState) (w : W)
      → P req.messages
      → Delivers P Good (send amb complete last req hook c w).0
  unfolding send
  send-Delivers none c w h = send_loop-Delivers none req.messages c w h
  send-Delivers (some hook) c w h =
      let input : CompactInput = record {
        err = GoError.nil;
        reason = CompactReason.before_turn;
        last_usage = last;
        messages = req.messages;
      } in
      let (v, c', w') = run_hook hook input c w in
      after_hook-Delivers (some hook) req.messages v c' w' h (run_hook-Sound hook input c w)
