-- ===== src/Ratelimit/Charging.antt =====
-- llms/ratelimit: what a reservation holds and what actual usage is charged, against exact sums.
use maestro_llms.Base.{arith, ◌≡◌, if◌then◌else◌, inl, inr, Bool-cases}
use maestro_llms.Base.Int.{
  ℤ, pos, ◌≤ℤ◌, ◌+ℤ◌, +ℤ_parts, InRange, max_int, max_ℤ, min_ℤ, max_ℤ_bounds, ltb_ℤ, leb_ℤ,
  eq_of_parts,
}
use maestro_llms.Llms.Usage.{Usage}
use maestro_llms.Satint
use maestro_llms.Satint.Bounds.{add-clamp64}
use maestro_llms.Ratelimit.{charged_input, charged_output, effective_tokens}

-- The token fields of a Usage are ints.
pub record UsageInRange (u : Usage) : Type 0 where
  pub input : InRange u.input_tokens
  pub output : InRange u.output_tokens
  pub total : InRange u.total_tokens
  pub reasoning : InRange u.reasoning_tokens
  pub billable : InRange u.billable_output_tokens
  pub embedding : InRange u.embedding_tokens

-- The saturating sum of two counts.
add_counts :
    (a b : ℤ)
    → pos 0 ≤ℤ a
    → a ≤ℤ max_int
    → pos 0 ≤ℤ b
    → b ≤ℤ max_int
    → (a ≤ℤ Satint.add a b)
      × (b ≤ℤ Satint.add a b)
      × (Satint.add a b ≤ℤ max_int)
      × (min_ℤ (a +ℤ b) max_int ≤ℤ Satint.add a b)
add_counts a b ha la hb lb =
    rw (add-clamp64 a b (omega arith) (omega arith)) (ground (arith, +ℤ_parts a b))

charged_input_bounds :
    (u : Usage)
    → UsageInRange u
    → (pos 0 ≤ℤ charged_input u)
      × (charged_input u ≤ℤ max_int)
      × (u.input_tokens ≤ℤ charged_input u)
      × (u.embedding_tokens ≤ℤ charged_input u)
unfolding charged_input
charged_input_bounds u h = ground (arith, h.input, h.embedding)

charged_output_bounds :
    (u : Usage)
    → UsageInRange u
    → (pos 0 ≤ℤ charged_output u)
      × (charged_output u ≤ℤ max_int)
      × (u.billable_output_tokens ≤ℤ charged_output u)
      × (u.billable_output_tokens ≤ℤ pos 0
          → pos 0 ≤ℤ u.output_tokens
          → pos 0 ≤ℤ u.reasoning_tokens
          → min_ℤ (u.output_tokens +ℤ u.reasoning_tokens) max_int ≤ℤ charged_output u)
unfolding charged_output
charged_output_bounds u h =
    let out = max_ℤ u.output_tokens (pos 0) in
    let think = max_ℤ u.reasoning_tokens (pos 0) in
    let made =
      add_counts out think (ground arith) (ground (arith, h.output)) (ground arith)
        (ground (arith, h.reasoning)) in
    ground (arith, h.billable, made)

-- What is owed for the reported tokens, summed without bounds.
abbrev pub owed_output : Usage → ℤ
owed_output u =
    if ltb_ℤ (pos 0) u.billable_output_tokens
    then u.billable_output_tokens
    else max_ℤ u.output_tokens (pos 0) +ℤ max_ℤ u.reasoning_tokens (pos 0)

abbrev pub owed : Usage → ℤ
owed u =
    max_ℤ (max_ℤ (max_ℤ u.input_tokens u.embedding_tokens) (pos 0) +ℤ owed_output u) u.total_tokens

owed_output_exact : (u : Usage) → UsageInRange u → charged_output u ≡ min_ℤ (owed_output u) max_int
unfolding charged_output
owed_output_exact u h =
    let out = max_ℤ u.output_tokens (pos 0) in
    let think = max_ℤ u.reasoning_tokens (pos 0) in
    let sum = add-clamp64 out think (ground (arith, h.output)) (ground (arith, h.reasoning)) in
    elim (Bool-cases (leb_ℤ u.billable_output_tokens (pos 0))) [
      | inl unbilled ↦ rw (unbilled, sum) (ground (arith, unbilled, +ℤ_parts out think))
      | inr billed ↦ rw billed (ground (arith, billed, h.billable))
    ]

-- Saturating each sum is saturating the whole.
saturate_once :
    (input output total : ℤ)
    → pos 0 ≤ℤ input
    → input ≤ℤ max_int
    → pos 0 ≤ℤ output
    → InRange total
    → max_ℤ (Satint.add input (min_ℤ output max_int)) total
      ≡ min_ℤ (max_ℤ (input +ℤ output) total) max_int
saturate_once input output total low high made h =
    rw (add-clamp64 input (min_ℤ output max_int) (omega arith) (ground arith)) (
      ground (
        arith,
        +ℤ_parts input (min_ℤ output max_int),
        +ℤ_parts input output,
        eq_of_parts (input +ℤ min_ℤ output max_int) (input +ℤ output),
      ))

owed_exact : (u : Usage) → UsageInRange u → effective_tokens u ≡ min_ℤ (owed u) max_int
unfolding effective_tokens charged_input
owed_exact u h = rw (owed_output_exact u h) (
    saturate_once (charged_input u) (owed_output u) u.total_tokens (ground arith)
      (ground (arith, h.input, h.embedding))
      (ground (arith, +ℤ_parts (max_ℤ u.output_tokens (pos 0)) (max_ℤ u.reasoning_tokens (pos 0))))
      h.total)

-- The charge is just what is owed, or the largest int where that is more. Owed is the larger of the
-- total that the provider reports and of the unbounded sum of input and output: the input is the larger
-- of the input and embedding tokens, the output the billable tokens where they are positive and
-- otherwise the visible and reasoning tokens, and a negative count is zero. So the charge is an int
-- that is not negative, and at least the total, the input, the embedding and the billable tokens.
pub effective_tokens_bounds :
    (u : Usage)
    → UsageInRange u
    → let charge = effective_tokens u in
      (charge ≡ min_ℤ (owed u) max_int)
      × (pos 0 ≤ℤ charge)
      × (charge ≤ℤ max_int)
      × (u.total_tokens ≤ℤ charge)
      × (u.input_tokens ≤ℤ charge)
      × (u.embedding_tokens ≤ℤ charge)
      × (u.billable_output_tokens ≤ℤ charge)
unfolding effective_tokens
effective_tokens_bounds u h =
    let input = charged_input_bounds u h in
    let output = charged_output_bounds u h in
    let all = add_counts (charged_input u) (charged_output u) input.0 input.1 output.0 output.1 in
    let sum = Satint.add (charged_input u) (charged_output u) in
    let top = max_ℤ_bounds sum u.total_tokens max_int in
    (
      owed_exact u h,
      omega arith,
      top.2 all.2 h.total.1,
      top.1,
      omega arith,
      omega arith,
      omega arith,
    )
