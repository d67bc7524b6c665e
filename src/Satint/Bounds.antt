-- ===== src/Satint/Bounds.antt =====
-- llms/internal/satint/satint.go: the saturating operations against exact integer arithmetic.
use maestro_llms.Base.{◌≡◌, arith}
use maestro_llms.Base.Int.{
  ℤ, ◌+ℤ◌, ◌-ℤ◌, max_int, min_int, clamp64, InRange, add64, sub64, wrap64_exact, +ℤ_parts, -ℤ_parts,
}
use maestro_llms.Satint.{add, sub}

-- For two ints, `Add` is the sum in ℤ clamped to the int range.
pub add-clamp64 : (a b : ℤ) → InRange a → InRange b → add a b ≡ clamp64 (a +ℤ b)
unfolding add add64 sub64
add-clamp64 a b ha hb = ground (
  arith,
  wrap64_exact (a +ℤ b),
  wrap64_exact (max_int -ℤ b),
  wrap64_exact (min_int -ℤ b),
  +ℤ_parts a b,
  -ℤ_parts max_int b,
  -ℤ_parts min_int b,
)

-- For two ints, `Sub` is the difference in ℤ clamped to the int range.
pub sub-clamp64 : (a b : ℤ) → InRange a → InRange b → sub a b ≡ clamp64 (a -ℤ b)
unfolding sub add64 sub64
sub-clamp64 a b ha hb = ground (
  arith,
  wrap64_exact (a -ℤ b),
  wrap64_exact (max_int +ℤ b),
  wrap64_exact (min_int +ℤ b),
  -ℤ_parts a b,
  +ℤ_parts max_int b,
  +ℤ_parts min_int b,
)
