-- ===== src/Llms/Errors.antt =====
-- llms/error.go, and the errors of the other packages: one type for Go's `error`, with its chain of
-- wrapped errors. `nil` is the nil error, also where a Cause field is unset.
pub mod Tree
use maestro_llms.Base.{String, Bool, true, false, not, ◌&&◌, Option, none, some, is_some}
use maestro_llms.Base.Int.{ℤ, pos}
use maestro_llms.Llms.Reasons.{ErrorKind, Invalid, BadConfig, CompactReason}

-- The fields of a `ProviderError` but its Cause.
pub record ProviderInfo : Type 0 where
  pub provider : String
  pub model : String
  pub kind : ErrorKind
  pub status_code : ℤ
  pub message : String
  pub retry_after : ℤ

-- The fields of a `LimitError` but its Cause.
pub record LimitInfo : Type 0 where
  pub provider : String
  pub model : String
  pub reason : String
  pub retry_after : ℤ
  pub permanent : Bool

pub data GoError : Type 0 where
  nil : GoError
  -- context.Canceled and context.DeadlineExceeded
  canceled deadline_exceeded : GoError
  provider_error : ProviderInfo → GoError → GoError
  limit_error : LimitInfo → GoError → GoError
  circuit_open : String → String → ℤ → GoError
  validation_error : Invalid → GoError
  config_error : BadConfig → GoError
  compaction_error : CompactReason → GoError → GoError
  -- an error of any other type, with what it wraps
  opaque : String → GoError → GoError
  -- fmt.Errorf with one `%w`, and with two
  errorf : String → GoError → GoError
  errorf2 : String → GoError → GoError → GoError

abbrev pub is_nil : GoError → Bool
is_nil GoError.nil = true
is_nil _ = false

abbrev or_else {ℓ} : {A : Type ℓ} → Option A → Option A → Option A
or_else none y = y
or_else (some a) y = some a

-- The walk of errors.Is and errors.As: the first error of the tree, in pre-order, that `match`
-- accepts.
pub find_error {ℓ} : {A : Type ℓ} → (GoError → Option A) → GoError → Option A
find_error match GoError.nil = none
find_error match GoError.canceled = match GoError.canceled
find_error match GoError.deadline_exceeded = match GoError.deadline_exceeded
find_error match (GoError.provider_error i c) =
    or_else (match (GoError.provider_error i c)) (find_error match c)
find_error match (GoError.limit_error i c) =
    or_else (match (GoError.limit_error i c)) (find_error match c)
find_error match (GoError.circuit_open p m r) = match (GoError.circuit_open p m r)
find_error match (GoError.validation_error r) = match (GoError.validation_error r)
find_error match (GoError.config_error r) = match (GoError.config_error r)
find_error match (GoError.compaction_error r c) =
    or_else (match (GoError.compaction_error r c)) (find_error match c)
find_error match (GoError.opaque s c) = or_else (match (GoError.opaque s c)) (find_error match c)
find_error match (GoError.errorf s c) = or_else (match (GoError.errorf s c)) (find_error match c)
find_error match (GoError.errorf2 s a b) =
    or_else (match (GoError.errorf2 s a b)) (or_else (find_error match a) (find_error match b))

abbrev match_provider : GoError → Option (ProviderInfo × GoError)
match_provider (GoError.provider_error i c) = some (i, c)
match_provider _ = none

abbrev match_limit : GoError → Option (LimitInfo × GoError)
match_limit (GoError.limit_error i c) = some (i, c)
match_limit _ = none

abbrev match_canceled : GoError → Option (Unit {0})
match_canceled GoError.canceled = some tt
match_canceled _ = none

abbrev match_deadline : GoError → Option (Unit {0})
match_deadline GoError.deadline_exceeded = some tt
match_deadline _ = none

-- `errors.As(err, &pe)` and `errors.As(err, &le)`.
unfoldable pub as_provider : GoError → Option (ProviderInfo × GoError)
unfolding find_error
as_provider = find_error match_provider

unfoldable pub as_limit : GoError → Option (LimitInfo × GoError)
unfolding find_error
as_limit = find_error match_limit

-- `errors.Is(err, context.Canceled)` and `errors.Is(err, context.DeadlineExceeded)`.
unfoldable pub is_canceled : GoError → Bool
unfolding find_error
is_canceled e = is_some (find_error match_canceled e)

unfoldable pub is_deadline : GoError → Bool
unfolding find_error
is_deadline e = is_some (find_error match_deadline e)

-- `ProviderError.Retryable`.
abbrev pub kind_retryable : ErrorKind → Bool
kind_retryable ErrorKind.auth = false
kind_retryable ErrorKind.config = false
kind_retryable ErrorKind.bad_request = false
kind_retryable ErrorKind.content_policy = false
kind_retryable ErrorKind.context_length = false
kind_retryable _ = true

-- `LimitError.Retryable`.
unfoldable pub limit_retryable : LimitInfo → GoError → Bool
unfolding is_canceled
limit_retryable i cause = not i.permanent && not (is_canceled cause)

retryable_limit : Option (LimitInfo × GoError) → Bool
unfolding limit_retryable
retryable_limit none = false
retryable_limit (some (i, c)) = limit_retryable i c

retryable_as : Option (ProviderInfo × GoError) → GoError → Bool
unfolding retryable_limit as_limit
retryable_as (some (i, c)) err = kind_retryable i.kind
retryable_as none err = retryable_limit (as_limit err)

-- `Retryable`.
unfoldable pub retryable : GoError → Bool
unfolding retryable_as as_provider
retryable err = retryable_as (as_provider err) err

retry_after_limit : Option (LimitInfo × GoError) → ℤ
retry_after_limit none = pos 0
retry_after_limit (some (i, c)) = i.retry_after

retry_after_as : Option (ProviderInfo × GoError) → GoError → ℤ
unfolding retry_after_limit as_limit
retry_after_as (some (i, c)) err = i.retry_after
retry_after_as none err = retry_after_limit (as_limit err)

-- `RetryAfter`.
unfoldable pub retry_after : GoError → ℤ
unfolding retry_after_as as_provider
retry_after err = retry_after_as (as_provider err) err
