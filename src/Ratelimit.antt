-- ===== src/Ratelimit.antt =====
-- llms/ratelimit/ratelimit.go: what a reservation holds. And effectiveTokens of memory.go, which both
-- limiters charge.
pub mod Charging
pub mod FromBucket
pub mod Memory
use maestro_llms.Base.{String, if◌then◌else◌}
use maestro_llms.Base.Int.{ℤ, pos, leb_ℤ, max_ℤ}
use maestro_llms.Llms.Usage.{Usage}
use maestro_llms.Satint

pub record UsageUnits : Type 0 where
  pub input_tokens : ℤ
  pub output_tokens_max : ℤ
  pub total_tokens_max : ℤ
  pub requests : ℤ

-- `UsageUnits.Tokens`.
unfoldable pub tokens : UsageUnits → ℤ
tokens u =
    max_ℤ
      (if leb_ℤ u.total_tokens_max (pos 0)
        then Satint.add u.input_tokens u.output_tokens_max
        else u.total_tokens_max)
      (pos 0)

-- `UsageUnits.Slots`.
unfoldable pub slots : UsageUnits → ℤ
slots u = max_ℤ u.requests (pos 1)

pub data Operation : Type 0 where
  chat embedding : Operation

-- `ReservationRequest`, but for Metadata and Subject, which the modelled limiters do not read.
pub record ReservationRequest : Type 0 where
  pub provider : String
  pub model : String
  pub operation : Operation
  pub purpose : String
  pub estimated_units : UsageUnits

-- The `input` and the `output` of `effectiveTokens`.
charged_input : Usage → ℤ
charged_input u = max_ℤ (max_ℤ u.input_tokens u.embedding_tokens) (pos 0)

charged_output : Usage → ℤ
charged_output u =
    if leb_ℤ u.billable_output_tokens (pos 0)
    then Satint.add (max_ℤ u.output_tokens (pos 0)) (max_ℤ u.reasoning_tokens (pos 0))
    else u.billable_output_tokens

-- `effectiveTokens`.
unfoldable pub effective_tokens : Usage → ℤ
unfolding charged_input charged_output
effective_tokens u = max_ℤ (Satint.add (charged_input u) (charged_output u)) u.total_tokens
