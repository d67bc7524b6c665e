-- ===== src/Tests/StackRuns.antt =====
-- llms/middleware/ratelimit.go and the classification of provider errors, on concrete inputs.
use maestro_llms.Base.{ℕ, suc, ◌≡◌, refl, String, true, false, not, Option, none, some, [], ok}
use maestro_llms.Base.Int.{ℤ, pos, ◌≤ℤ◌}
use maestro_llms.Llms.Errors.{GoError, is_deadline, is_canceled, retryable}
use maestro_llms.Llms.Usage.{Usage, zero_usage}
use maestro_llms.Ratelimit.{ReservationRequest, Operation}
use maestro_llms.Middleware.RateLimit.{LimiterOps, reserved}
use maestro_llms.Middleware.RateLimit.Order.{Accounts, log_ops, log_call, reserved-Accounts}
use maestro_llms.Providers.ApiErr.{classify_overflow, parse_retry_after, max_retry_after}
use maestro_llms.Providers.ApiErr.Retries.{
  permanent_status, parse_retry_after_bounds, classify_overflow-retryable,
}

-- A limiter that counts what it grants.
abbrev counting : LimiterOps ℕ
counting = record {
  Handle = ℕ;
  reserve = λ rr w. (ok w, suc w);
  commit = λ h u w. w;
  release = λ h w. w;
}

abbrev no_text : String
no_text = ""

abbrev answers : ℕ → String × GoError × ℕ
answers w = ("yes", GoError.nil, w)

abbrev usage_of : String → Usage
usage_of s = record zero_usage { input_tokens = pos 3 }

abbrev request : ReservationRequest
request = record {
  provider = "p";
  model = "m";
  operation = Operation.chat;
  purpose = "";
  estimated_units = record {
    input_tokens = pos 30;
    output_tokens_max = pos 20;
    total_tokens_max = pos 0;
    requests = pos 1;
  };
}

reserved-Accounts_example :
    Accounts counting usage_of no_text
      (reserved (log_ops counting) no_text (log_call counting answers) usage_of request (4, []))
      "yes"
      GoError.nil
      (ok 4)
reserved-Accounts_example = reserved-Accounts counting no_text answers usage_of request 4

-- Readers of a header that says 120.
abbrev atoi : String → Option ℤ
atoi s = some (pos 120)

abbrev until : String → Option ℤ
until s = none

parse_retry_after_bounds_example :
    (pos 0 ≤ℤ parse_retry_after atoi until "120")
    × (parse_retry_after atoi until "120" ≤ℤ max_retry_after)
parse_retry_after_bounds_example = parse_retry_after_bounds atoi until "120"

abbrev text : GoError → String
text e = "error"

abbrev extract : GoError → Option (ℤ × Option String × String)
extract e = some (pos 429, some "120", "slow down")

abbrev vendor : GoError
vendor = GoError.opaque "429" GoError.nil

classify_overflow-retryable_example :
    let result = classify_overflow atoi until text extract "p" "m" none vendor in
    (is_deadline vendor ≡ true → retryable result ≡ true)
    × (is_deadline vendor ≡ false → is_canceled vendor ≡ true → result ≡ vendor)
    × (is_deadline vendor ≡ false
        → is_canceled vendor ≡ false
        → retryable result ≡ not (permanent_status (pos 429)))
classify_overflow-retryable_example =
    classify_overflow-retryable atoi until text extract "p" "m" none vendor (pos 429) (some "120")
      "slow down" refl refl
