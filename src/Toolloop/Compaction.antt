-- ===== src/Toolloop/Compaction.antt =====
-- llms/toolloop/run.go: the usage sum, and the provider call with its compactions.
pub mod Sending
use maestro_llms.Base.{
  ℕ, suc, String, Bool, true, false, not, ◌&&◌, ◌||◌, ◌==◌, Option, none, some, List, [], ◌∷◌,
  Result, ok, err, if◌then◌else◌, is_empty, str_eq, last?,
}
use maestro_llms.Base.Int.{ℤ, pos, ◌+ℤ◌, eqb_ℤ, add64}
use maestro_llms.Llms.Errors.{GoError, is_nil}
use maestro_llms.Llms.Reasons.{CompactReason, Invalid}
use maestro_llms.Llms.Usage.{Usage}
use maestro_llms.Llms.Message.{Message, Role, ChatRequest, ChatResponse, is_assistant}
use maestro_llms.Middleware.Validation.{validate_messages}
use maestro_llms.Toolloop.Types.{
  Ambient, Config, CompactInput, CompactResult, CompactionState, OutcomeKind, UsageSum, no_response,
}
use maestro_llms.Toolloop.Stops.{classify_stop, llm_error_kind}

-- `addUsage`. The counts are ints and wrap.
unfoldable pub add_usage : UsageSum → Usage → UsageSum
unfolding add64
add_usage sum add = record {
  total = record {
    input_tokens = add64 sum.total.input_tokens add.input_tokens;
    output_tokens = add64 sum.total.output_tokens add.output_tokens;
    total_tokens = add64 sum.total.total_tokens add.total_tokens;
    reasoning_tokens = add64 sum.total.reasoning_tokens add.reasoning_tokens;
    billable_output_tokens = add64 sum.total.billable_output_tokens add.billable_output_tokens;
    embedding_tokens = add64 sum.total.embedding_tokens add.embedding_tokens;
    cache_read_tokens = add64 sum.total.cache_read_tokens add.cache_read_tokens;
    cache_write_tokens = add64 sum.total.cache_write_tokens add.cache_write_tokens;
    provider_request_id = if suc sum.contribs == 1 then add.provider_request_id else "";
  };
  contribs = suc sum.contribs;
}

-- `u == (llms.Usage{})`.
unfoldable pub is_zero_usage : Usage → Bool
is_zero_usage u =
    eqb_ℤ u.input_tokens (pos 0)
    && (eqb_ℤ u.output_tokens (pos 0)
        && (eqb_ℤ u.total_tokens (pos 0)
            && (eqb_ℤ u.reasoning_tokens (pos 0)
                && (eqb_ℤ u.billable_output_tokens (pos 0)
                    && (eqb_ℤ u.embedding_tokens (pos 0)
                        && (eqb_ℤ u.cache_read_tokens (pos 0)
                            && (eqb_ℤ u.cache_write_tokens (pos 0)
                                && str_eq u.provider_request_id "")))))))

abbrev pub ends_with_assistant : Option Message → Bool
ends_with_assistant none = false
ends_with_assistant (some m) = is_assistant m.role

ends_badly : GoError
ends_badly = GoError.opaque "compacted transcript ends with an assistant message" GoError.nil

-- The checks on a compacted transcript: the error that goes into a CompactionError, or none.
unfoldable pub check_compacted : List Message → Option GoError
unfolding validate_messages ends_badly
check_compacted msgs = elim (validate_messages msgs) [
  | err r ↦ some (GoError.validation_error r)
  | ok u ↦ if ends_with_assistant (last? msgs) then some ends_badly else none
]

-- What `compaction.run` returns: no change, a compacted transcript, or an error.
pub data Compacted : Type 0 where
  unchanged : Compacted
  adopted : List Message → Compacted
  failed : GoError → Compacted

-- The result of the hook, once its usage is counted.
judge : CompactReason → Option (List Message) → GoError → Compacted
unfolding check_compacted
judge reason messages hook_err =
    if not (is_nil hook_err)
    then Compacted.failed (GoError.compaction_error reason hook_err)
    else elim messages [
      | none ↦ Compacted.unchanged
      | some msgs ↦ elim (check_compacted msgs) [
        | some e ↦ Compacted.failed (GoError.compaction_error reason e)
        | none ↦ Compacted.adopted msgs
      ]
    ]

-- `c.count++` where a transcript is adopted.
count_adopted : Compacted → CompactionState → CompactionState
count_adopted (Compacted.adopted msgs) c = record c { count = suc c.count }
count_adopted _ c = c

-- `send` returns the response and the transcript last sent, or that transcript with the stop.
pub record Sent : Type 0 where
  pub response : ChatResponse
  pub messages : List Message
  pub stop : Option (OutcomeKind × GoError)

-- A stop with `kind` and `err`.
abbrev pub stop_send : List Message → OutcomeKind × GoError → Sent
stop_send msgs s = record { response = no_response; messages = msgs; stop = some s }

abbrev pub is_exceeded : OutcomeKind → Bool
is_exceeded OutcomeKind.context_exceeded = true
is_exceeded _ = false

module _ {W : Type 0} where
  -- `compaction.run`, with the hook that is set.
  unfoldable pub run_hook :
      (CompactInput → W → CompactResult × GoError × W)
      → CompactInput
      → CompactionState
      → W
      → Compacted × CompactionState × W
  unfolding judge count_adopted is_zero_usage add_usage
  run_hook hook input c w =
      let (res, hook_err, w') = hook input w in
      let summed =
        if is_zero_usage res.usage then c else record c { usage = add_usage c.usage res.usage } in
      let verdict = judge input.reason res.messages hook_err in
      (verdict, count_adopted verdict summed, w')

  module _ (amb : Ambient W) (complete : ChatRequest → W → ChatResponse × GoError × W)
      (last : Usage) (req : ChatRequest) where
    -- What follows an overflow with the hook set: the retry is `again`.
    on_overflow :
        (List Message → CompactionState → W → Sent × CompactionState × W)
        → GoError
        → List Message
        → Compacted × CompactionState × W
        → Sent × CompactionState × W
    unfolding classify_stop llm_error_kind
    on_overflow again call_err msgs (Compacted.failed e, c, w) =
        (stop_send msgs (classify_stop (amb.ctx w) e OutcomeKind.compaction_error), c, w)
    on_overflow again call_err msgs (Compacted.unchanged, c, w) =
        (stop_send msgs (classify_stop (amb.ctx w) call_err (llm_error_kind call_err)), c, w)
    on_overflow again call_err msgs (Compacted.adopted msgs', c, w) = again msgs' c w

    -- What follows a failed call: a stop, or one compaction and `again` where the call overflowed,
    -- a hook is set and this was no retry.
    on_failure :
        Option (CompactInput → W → CompactResult × GoError × W)
        → Bool
        → (List Message → CompactionState → W → Sent × CompactionState × W)
        → GoError
        → List Message
        → CompactionState
        → W
        → Sent × CompactionState × W
    unfolding on_overflow run_hook
    on_failure none retried again call_err msgs c w =
        (stop_send msgs (classify_stop (amb.ctx w) call_err (llm_error_kind call_err)), c, w)
    on_failure (some hook) retried again call_err msgs c w =
        let stop = classify_stop (amb.ctx w) call_err (llm_error_kind call_err) in
        let input : CompactInput = record {
          err = stop.1;
          reason = CompactReason.overflow;
          last_usage = last;
          messages = msgs;
        } in
        if not (is_exceeded stop.0) || retried
        then (stop_send msgs stop, c, w)
        else on_overflow again call_err msgs (run_hook hook input c w)

    -- One round of the loop of `send`.
    unfoldable pub send_round :
        Option (CompactInput → W → CompactResult × GoError × W)
        → Bool
        → (List Message → CompactionState → W → Sent × CompactionState × W)
        → List Message
        → CompactionState
        → W
        → Sent × CompactionState × W
    unfolding on_failure
    send_round hook retried again msgs c w =
        let (resp, call_err, w') = complete (record req { messages = msgs }) w in
        if is_nil call_err
        then (record { response = resp; messages = msgs; stop = none }, c, w')
        else on_failure hook retried again call_err msgs c w'

    -- The second round, which is the last: with `retried` set it never goes on.
    abbrev no_round : List Message → CompactionState → W → Sent × CompactionState × W
    no_round msgs c w = (record { response = no_response; messages = msgs; stop = none }, c, w)

    -- The loop of `send`.
    unfoldable pub send_loop :
        Option (CompactInput → W → CompactResult × GoError × W)
        → List Message
        → CompactionState
        → W
        → Sent × CompactionState × W
    unfolding send_round
    send_loop hook = send_round hook false (send_round hook true no_round)

    -- What follows the compaction before a turn.
    after_hook :
        Option (CompactInput → W → CompactResult × GoError × W)
        → List Message
        → Compacted × CompactionState × W
        → Sent × CompactionState × W
    unfolding send_loop classify_stop
    after_hook hook msgs (Compacted.failed e, c, w) =
        (stop_send msgs (classify_stop (amb.ctx w) e OutcomeKind.compaction_error), c, w)
    after_hook hook msgs (Compacted.unchanged, c, w) = send_loop hook msgs c w
    after_hook hook msgs (Compacted.adopted msgs', c, w) = send_loop hook msgs' c w

    -- `compaction.send`.
    unfoldable pub send :
        Option (CompactInput → W → CompactResult × GoError × W)
        → CompactionState
        → W
        → Sent × CompactionState × W
    unfolding after_hook run_hook
    send none c w = send_loop none req.messages c w
    send (some hook) c w =
        let input : CompactInput = record {
          err = GoError.nil;
          reason = CompactReason.before_turn;
          last_usage = last;
          messages = req.messages;
        } in
        after_hook (some hook) req.messages (run_hook hook input c w)
