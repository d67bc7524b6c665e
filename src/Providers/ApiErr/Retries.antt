-- ===== src/Providers/ApiErr/Retries.antt =====
-- llms/providers/internal/apierr/apierr.go: which failures are retried, and how long a provider may
-- make a caller wait.
use maestro_llms.Base.{
  ◌≡◌, refl, String, Bool, true, false, not, ◌||◌, Option, none, some, arith, Bool-cases, inl, inr,
  str_eq, ◌*◌,
}
use maestro_llms.Base.Int.{ℤ, pos, negsuc, ◌≤ℤ◌, eqb_ℤ, wrap64_exact}
use maestro_llms.Llms.Errors.{
  GoError, is_nil, is_canceled, is_deadline, retryable, as_provider, kind_retryable,
}
use maestro_llms.Providers.ApiErr.{
  from_date, from_seconds, narrowed, classified, kind_for_status, parse_retry_after,
  max_retry_after, seconds, classify_overflow,
}

-- The statuses of a request that no retry mends.
abbrev pub permanent_status : ℤ → Bool
permanent_status s =
    eqb_ℤ s (pos 400)
    || eqb_ℤ s (pos 401)
    || eqb_ℤ s (pos 403)
    || eqb_ℤ s (pos 404)
    || eqb_ℤ s (pos 422)

seconds_bounds :
    (n : ℤ) → pos 1 ≤ℤ n → n ≤ℤ pos 86399 → (pos 0 ≤ℤ seconds n) × (seconds n ≤ℤ max_retry_after)
unfolding seconds
seconds_bounds (pos n) lo hi =
    rw (wrap64_exact (pos (n * 1000000000)) (omega arith, omega arith)) (omega arith, omega arith)
seconds_bounds (negsuc n) lo hi = absurd (omega arith)

from_date_bounds :
    (atoi until : String → Option ℤ) (d : Option ℤ)
    → (pos 0 ≤ℤ from_date atoi until d) × (from_date atoi until d ≤ℤ max_retry_after)
unfolding from_date
from_date_bounds atoi until none = (omega arith, omega arith)
from_date_bounds atoi until (some d) = ground arith

from_seconds_bounds :
    (atoi until : String → Option ℤ) (secs : Option ℤ) (v : String)
    → (pos 0 ≤ℤ from_seconds atoi until secs v)
      × (from_seconds atoi until secs v ≤ℤ max_retry_after)
unfolding from_seconds
from_seconds_bounds atoi until none v = from_date_bounds atoi until (until v)
from_seconds_bounds atoi until (some n) v = ground (arith, seconds_bounds n)

-- Whatever the header says and however the library reads it, the hint is between zero and a day.
pub parse_retry_after_bounds :
    (atoi until : String → Option ℤ) (v : String)
    → (pos 0 ≤ℤ parse_retry_after atoi until v)
      × (parse_retry_after atoi until v ≤ℤ max_retry_after)
unfolding parse_retry_after
parse_retry_after_bounds atoi until v = elim (Bool-cases (str_eq v "")) [
  | inl empty ↦ rw empty (omega arith, omega arith)
  | inr given ↦ rw given (from_seconds_bounds atoi until (atoi v) v)
]

module _ (atoi until : String → Option ℤ) (text : GoError → String)
    (extract : GoError → Option (ℤ × Option String × String)) (provider model : String) where
  narrowed-retryable :
      (overflow : Option (GoError → Bool)) (err : GoError) (status : ℤ)
      → kind_retryable
          (narrowed atoi until text extract provider model (kind_for_status status) overflow err)
        ≡ not (permanent_status status)
  unfolding narrowed kind_for_status
  narrowed-retryable none err status = ground arith
  narrowed-retryable (some overflow) err status = ground arith

  -- An API error with a status, that is neither a deadline nor a cancellation, is classified as
  -- retryable unless the status is 400, 401, 403, 404 or 422; a detector of overflows does not change
  -- that. A deadline is retryable.
  pub classify_overflow-retryable :
      (overflow : Option (GoError → Bool)) (err : GoError) (status : ℤ) (header : Option String)
      (message : String)
      → is_nil err ≡ false
      → extract err ≡ some (status, header, message)
      → let result = classify_overflow atoi until text extract provider model overflow err in
        (is_deadline err ≡ true → retryable result ≡ true)
        × (is_deadline err ≡ false → is_canceled err ≡ true → result ≡ err)
        × (is_deadline err ≡ false
            → is_canceled err ≡ false
            → retryable result ≡ not (permanent_status status))
  unfolding classify_overflow classified retryable as_provider
  classify_overflow-retryable overflow err status header message some_error extracted = (
    λ slow. rw some_error (rw slow refl),
    λ quick stopped. rw some_error (rw quick (rw stopped refl)),
    λ quick going.
        rw some_error (rw quick (rw going (rw extracted (narrowed-retryable overflow err status)))),
  )
