-- ===== src/Llms/Usage.antt =====
-- llms/usage.go: normalized token accounting.
use maestro_llms.Base.{String, arith}
use maestro_llms.Base.Int.{
  ℤ, pos, ◌+ℤ◌, ◌-ℤ◌, ◌≤ℤ◌, max_ℤ, min_ℤ, InRange, sub64, wrap64_exact, -ℤ_parts, +ℤ_parts,
}

pub record Usage : Type 0 where
  pub input_tokens : ℤ
  pub output_tokens : ℤ
  pub total_tokens : ℤ
  pub reasoning_tokens : ℤ
  pub billable_output_tokens : ℤ
  pub embedding_tokens : ℤ
  pub cache_read_tokens : ℤ
  pub cache_write_tokens : ℤ
  pub provider_request_id : String

abbrev pub zero_usage : Usage
zero_usage = record {
  input_tokens = pos 0;
  output_tokens = pos 0;
  total_tokens = pos 0;
  reasoning_tokens = pos 0;
  billable_output_tokens = pos 0;
  embedding_tokens = pos 0;
  cache_read_tokens = pos 0;
  cache_write_tokens = pos 0;
  provider_request_id = "";
}

-- `CacheSplit`: the cache reads and writes that are reported.
pub cache_split : ℤ → ℤ → ℤ → ℤ × ℤ
unfolding sub64
cache_split input read write =
    let input' = max_ℤ input (pos 0) in
    let cache_read = min_ℤ (max_ℤ read (pos 0)) input' in
    (cache_read, min_ℤ (max_ℤ write (pos 0)) (sub64 input' cache_read))

-- Whatever three ints a server reports, `CacheSplit` returns reads and writes that are not negative
-- and that together are at most the input count, itself taken as zero where it is negative.
pub cache_split_bounds :
    (input read write : ℤ)
    → InRange input
    → let s = cache_split input read write in
      (pos 0 ≤ℤ s.0) × (pos 0 ≤ℤ s.1) × (s.0 +ℤ s.1 ≤ℤ max_ℤ input (pos 0))
unfolding cache_split
cache_split_bounds input read write h = ground (
  arith,
  wrap64_exact (max_ℤ input (pos 0) -ℤ min_ℤ (max_ℤ read (pos 0)) (max_ℤ input (pos 0))),
  -ℤ_parts (max_ℤ input (pos 0)) (min_ℤ (max_ℤ read (pos 0)) (max_ℤ input (pos 0))),
  +ℤ_parts (cache_split input read write).0 (cache_split input read write).1,
)
