-- ===== src/Providers/OpenaiCompat/Usages.antt =====
-- llms/providers/openaicompat/convert.go: the tokens that buildUsage reports.
use maestro_llms.Base.{Option, String, arith}
use maestro_llms.Base.Int.{
  ℤ, pos, ◌≤ℤ◌, ◌+ℤ◌, max_ℤ, min_ℤ, InRange, sub64, sub64_exact, -ℤ_parts, +ℤ_parts, eq_of_parts,
}
use maestro_llms.Base.{◌≡◌, refl}
use maestro_llms.Llms.Usage.{cache_split_bounds}
use maestro_llms.Providers.OpenaiCompat.Responses.{ChatCompletion, build_usage, cache_write_tokens}

-- The output that is left after the reasoning, of a count that is not negative.
output_split :
    (billable reasoning : ℤ)
    → InRange billable
    → pos 0 ≤ℤ billable
    → let r = min_ℤ (max_ℤ reasoning (pos 0)) billable in
      (pos 0 ≤ℤ r) × (pos 0 ≤ℤ sub64 billable r) × (sub64 billable r +ℤ r ≡ billable)
output_split billable reasoning h nonneg =
    let r = min_ℤ (max_ℤ reasoning (pos 0)) billable in
    ground (
      arith,
      sub64_exact billable r,
      -ℤ_parts billable r,
      +ℤ_parts (sub64 billable r) r,
      eq_of_parts (sub64 billable r +ℤ r) billable,
    )

module _ (atoi : String → Option ℤ) where
  -- Of a completion whose count of completion tokens is an int that is not negative and whose count
  -- of prompt tokens is an int, whatever its other counts are: the visible output and the reasoning
  -- are not negative and add up to the billable output, which is the completion count, and the cache
  -- reads and writes are not negative and together at most the prompt count, taken as zero where it
  -- is negative.
  pub build_usage-splits :
      (resp : ChatCompletion)
      → InRange resp.usage.completion_tokens
      → pos 0 ≤ℤ resp.usage.completion_tokens
      → InRange resp.usage.prompt_tokens
      → let u = build_usage atoi resp in
        (pos 0 ≤ℤ u.reasoning_tokens)
        × (pos 0 ≤ℤ u.output_tokens)
        × (u.output_tokens +ℤ u.reasoning_tokens ≡ resp.usage.completion_tokens)
        × (u.billable_output_tokens ≡ resp.usage.completion_tokens)
        × (pos 0 ≤ℤ u.cache_read_tokens)
        × (pos 0 ≤ℤ u.cache_write_tokens)
        × (u.cache_read_tokens +ℤ u.cache_write_tokens ≤ℤ max_ℤ u.input_tokens (pos 0))
  unfolding build_usage
  build_usage-splits resp h nonneg p =
      let (r, o, sum) =
        output_split resp.usage.completion_tokens resp.usage.reasoning_tokens h nonneg in
      let (a, b, c) =
        cache_split_bounds resp.usage.prompt_tokens resp.usage.cached_tokens
          (cache_write_tokens atoi resp.usage) p in
      (r, o, sum, refl, a, b, c)
