-- ===== src/Providers/ApiErr.antt =====
-- llms/providers/internal/apierr/apierr.go: from a vendor's error to a ProviderError. The adapter's
-- Extract and Overflow are arguments, as are the parsers of the Go library: strconv.Atoi, and
-- http.ParseTime with time.Until. `text` is err.Error(). A header counts for its Retry-After value.
pub mod Retries
use maestro_llms.Base.{
  String, Bool, true, false, ◌&&◌, ◌||◌, Option, none, some, if◌then◌else◌, str_eq, ◌*◌,
}
use maestro_llms.Base.Int.{ℤ, pos, pos_part, eqb_ℤ, leb_ℤ, ltb_ℤ, wrap64}
use maestro_llms.Llms.Reasons.{ErrorKind}
use maestro_llms.Llms.Errors.{GoError, is_nil, is_canceled, is_deadline}

-- `KindForStatus`.
unfoldable pub kind_for_status : ℤ → ErrorKind
kind_for_status status =
    if eqb_ℤ status (pos 401) || eqb_ℤ status (pos 403)
    then ErrorKind.auth
    else if eqb_ℤ status (pos 429)
    then ErrorKind.rate_limited
    else if eqb_ℤ status (pos 408)
    then ErrorKind.timeout
    else if eqb_ℤ status (pos 400) || (eqb_ℤ status (pos 422) || eqb_ℤ status (pos 404))
    then ErrorKind.bad_request
    else if leb_ℤ (pos 500) status
    then ErrorKind.unavailable
    else ErrorKind.unknown

-- `maxRetryAfter`, 24 hours.
abbrev pub max_retry_after : ℤ
max_retry_after = pos 86400000000000

-- `time.Duration(secs) * time.Second`, for a positive number of seconds.
unfoldable pub seconds : ℤ → ℤ
unfolding wrap64
seconds secs = wrap64 (pos (pos_part secs * 1000000000))

abbrev is_bad_request : ErrorKind → Bool
is_bad_request ErrorKind.bad_request = true
is_bad_request _ = false

module _ (atoi : String → Option ℤ) (until : String → Option ℤ) where
  -- The HTTP-date of a Retry-After header.
  unfoldable pub from_date : Option ℤ → ℤ
  from_date none = pos 0
  from_date (some d) =
      if ltb_ℤ (pos 0) d then (if ltb_ℤ max_retry_after d then max_retry_after else d) else pos 0

  unfoldable pub from_seconds : Option ℤ → String → ℤ
  unfolding from_date seconds
  from_seconds none v = from_date (until v)
  from_seconds (some secs) v =
      if leb_ℤ secs (pos 0)
      then pos 0
      else if leb_ℤ (pos 86400) secs
      then max_retry_after
      else seconds secs

  -- `parseRetryAfter`, on what `h.Get` returns.
  unfoldable pub parse_retry_after : String → ℤ
  unfolding from_seconds
  parse_retry_after v = if str_eq v "" then pos 0 else from_seconds (atoi v) v

  -- `none` for a nil header.
  unfoldable pub header_wait : Option String → ℤ
  unfolding parse_retry_after
  header_wait none = pos 0
  header_wait (some v) = parse_retry_after v

  module _ (text : GoError → String) (extract : GoError → Option (ℤ × Option String × String))
      (provider model : String) where
    unfoldable pub narrowed : ErrorKind → Option (GoError → Bool) → GoError → ErrorKind
    narrowed kind none err = kind
    narrowed kind (some overflow) err =
        if is_bad_request kind && overflow err then ErrorKind.context_length else kind

    unfoldable pub classified :
        Option (ℤ × Option String × String) → Option (GoError → Bool) → GoError → GoError
    unfolding narrowed header_wait kind_for_status
    classified none overflow err =
        GoError.provider_error
          (record {
            provider = provider;
            model = model;
            kind = ErrorKind.unknown;
            status_code = pos 0;
            message = text err;
            retry_after = pos 0;
          })
          err
    classified (some (status, header, message)) overflow err =
        GoError.provider_error
          (record {
            provider = provider;
            model = model;
            kind = narrowed (kind_for_status status) overflow err;
            status_code = status;
            message = message;
            retry_after = header_wait header;
          })
          err

    -- `ClassifyOverflow`.
    unfoldable pub classify_overflow : Option (GoError → Bool) → GoError → GoError
    unfolding classified is_deadline is_canceled
    classify_overflow overflow err =
        if is_nil err
        then GoError.nil
        else if is_deadline err
        then GoError.provider_error
            (record {
              provider = provider;
              model = model;
              kind = ErrorKind.timeout;
              status_code = pos 0;
              message = "request deadline exceeded";
              retry_after = pos 0;
            })
            err
        else if is_canceled err
        then err
        else classified (extract err) overflow err

    -- `Classify`.
    unfoldable pub classify : GoError → GoError
    unfolding classify_overflow
    classify err = classify_overflow none err
