-- ===== src/Toolloop/Stops.antt =====
-- llms/toolloop/run.go: how an error becomes the kind of an Outcome.
use maestro_llms.Base.{Bool, true, false, Option, none, some, if◌then◌else◌}
use maestro_llms.Llms.Errors.{GoError, ProviderInfo, as_provider, is_canceled, is_deadline}
use maestro_llms.Llms.Reasons.{ErrorKind}
use maestro_llms.Toolloop.Types.{CtxState, OutcomeKind}

-- ctx.Err() as an error, and `errors.Is(err, ctxErr)`.
abbrev pub ctx_error : CtxState → GoError
ctx_error CtxState.live = GoError.nil
ctx_error CtxState.canceled = GoError.canceled
ctx_error CtxState.deadline = GoError.deadline_exceeded

-- The Err of a stop by the context: `err` if it matches ctx.Err(), and both otherwise.
join_ctx : Bool → CtxState → GoError → GoError
join_ctx true ctx err = err
join_ctx false ctx err = GoError.errorf2 "toolloop: %w: %w" (ctx_error ctx) err

-- `classifyStop`.
unfoldable pub classify_stop : CtxState → GoError → OutcomeKind → OutcomeKind × GoError
unfolding join_ctx is_canceled is_deadline
classify_stop CtxState.canceled err fallback =
    (OutcomeKind.canceled, join_ctx (is_canceled err) CtxState.canceled err)
classify_stop CtxState.deadline err fallback =
    (OutcomeKind.deadline, join_ctx (is_deadline err) CtxState.deadline err)
classify_stop CtxState.live err fallback =
    if is_canceled err then (OutcomeKind.canceled, err) else (fallback, err)

abbrev pub is_context_length : ErrorKind → Bool
is_context_length ErrorKind.context_length = true
is_context_length _ = false

kind_of_provider : Option (ProviderInfo × GoError) → OutcomeKind
kind_of_provider none = OutcomeKind.llm_error
kind_of_provider (some (i, c)) =
    if is_context_length i.kind then OutcomeKind.context_exceeded else OutcomeKind.llm_error

-- `llmErrorKind`.
unfoldable pub llm_error_kind : GoError → OutcomeKind
unfolding kind_of_provider as_provider
llm_error_kind err = kind_of_provider (as_provider err)
