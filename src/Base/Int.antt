-- ===== src/Base/Int.antt =====
-- Go's `int`, `int64` and `time.Duration`: integers over the native numbers, with the 64-bit
-- wrap-around written out. Sums and orders go through the two parts of an integer.
use Prim.Native.Nat.{ℕ, suc, ◌+◌, ◌-◌, ◌%◌, ◌≤◌}
use mathlib.Core.Path.{◌≡◌}
use mathlib.Core.Bool.{Bool, ◌&&◌}
use native.Mathlib.Omega.{arith}
use maestro_llms.Base.Tests.{ltb, leb, if◌then◌else◌}

-- `negsuc n` is -(n + 1).
pub data ℤ : Type 0 where
  pos : ℕ → ℤ
  negsuc : ℕ → ℤ

abbrev pub pos_part : ℤ → ℕ
pos_part (pos n) = n
pos_part (negsuc n) = 0

abbrev pub neg_part : ℤ → ℕ
neg_part (pos n) = 0
neg_part (negsuc n) = suc n

-- a - b, as an integer.
abbrev pub sub_ℕ : ℕ → ℕ → ℤ
sub_ℕ a b = if leb b a then pos (a - b) else negsuc (b - a - 1)

infixl 65 ◌+ℤ◌ ◌-ℤ◌
infix 50 ◌≤ℤ◌ ◌<ℤ◌
unfoldable pub ◌+ℤ◌ : ℤ → ℤ → ℤ
a +ℤ b = sub_ℕ (pos_part a + pos_part b) (neg_part a + neg_part b)

unfoldable pub ◌-ℤ◌ : ℤ → ℤ → ℤ
a -ℤ b = sub_ℕ (pos_part a + neg_part b) (neg_part a + pos_part b)

abbrev pub ◌≤ℤ◌ : ℤ → ℤ → Type 0
a ≤ℤ b = pos_part a + neg_part b ≤ pos_part b + neg_part a

abbrev pub ◌<ℤ◌ : ℤ → ℤ → Type 0
a <ℤ b = suc (pos_part a + neg_part b) ≤ pos_part b + neg_part a

abbrev pub ltb_ℤ : ℤ → ℤ → Bool
ltb_ℤ a b = ltb (pos_part a + neg_part b) (pos_part b + neg_part a)

abbrev pub leb_ℤ : ℤ → ℤ → Bool
leb_ℤ a b = leb (pos_part a + neg_part b) (pos_part b + neg_part a)

abbrev pub max_ℤ : ℤ → ℤ → ℤ
max_ℤ a b = if ltb_ℤ a b then b else a

abbrev pub min_ℤ : ℤ → ℤ → ℤ
min_ℤ a b = if ltb_ℤ b a then b else a

pub +ℤ_parts :
    (a b : ℤ)
    → pos_part (a +ℤ b) + neg_part a + neg_part b ≡ neg_part (a +ℤ b) + pos_part a + pos_part b
unfolding ◌+ℤ◌
+ℤ_parts a b = ground arith

pub -ℤ_parts :
    (a b : ℤ)
    → pos_part (a -ℤ b) + neg_part a + pos_part b ≡ neg_part (a -ℤ b) + pos_part a + neg_part b
unfolding ◌-ℤ◌
-ℤ_parts a b = ground arith

pub eq_of_parts : (a b : ℤ) → pos_part a + neg_part b ≡ pos_part b + neg_part a → a ≡ b
eq_of_parts a b h = ground arith

-- One part of an integer is zero.
pub ruleset int_laws = (arith, +ℤ_parts, -ℤ_parts, eq_of_parts)

-- math.MaxInt and math.MinInt on a 64-bit platform.
abbrev pub max_int : ℤ
max_int = pos 9223372036854775807

abbrev pub min_int : ℤ
min_int = negsuc 9223372036854775807

-- The values of `int` and `int64`.
abbrev pub InRange : ℤ → Type 0
InRange a = (min_int ≤ℤ a) × (a ≤ℤ max_int)

abbrev pub eqb_ℤ : ℤ → ℤ → Bool
eqb_ℤ a b = leb_ℤ a b && leb_ℤ b a

-- The nearest int to an integer.
abbrev pub clamp64 : ℤ → ℤ
clamp64 z = max_ℤ min_int (min_ℤ z max_int)

-- The value of the low 64 bits, read in two's complement.
unfoldable pub wrap64 : ℤ → ℤ
wrap64 (pos n) = sub_ℕ ((n + 9223372036854775808) % 18446744073709551616) 9223372036854775808
wrap64 (negsuc n) =
    sub_ℕ
      ((9223372036854775807 + 18446744073709551616 - n % 18446744073709551616)
        % 18446744073709551616)
      9223372036854775808

-- `a + b` and `a - b` of two ints.
unfoldable pub add64 : ℤ → ℤ → ℤ
unfolding wrap64 ◌+ℤ◌
add64 a b = wrap64 (a +ℤ b)

unfoldable pub sub64 : ℤ → ℤ → ℤ
unfolding wrap64 ◌-ℤ◌
sub64 a b = wrap64 (a -ℤ b)

pub wrap64-InRange : (a : ℤ) → InRange (wrap64 a)
unfolding wrap64
wrap64-InRange (pos n) = ground arith
wrap64-InRange (negsuc n) = ground arith

pub wrap64_exact : (a : ℤ) → InRange a → wrap64 a ≡ a
unfolding wrap64
wrap64_exact (pos n) h = ground arith
wrap64_exact (negsuc n) h = ground arith

pub add64_exact : (a b : ℤ) → InRange (a +ℤ b) → add64 a b ≡ a +ℤ b
unfolding add64
add64_exact a b h = wrap64_exact (a +ℤ b) h

pub sub64_exact : (a b : ℤ) → InRange (a -ℤ b) → sub64 a b ≡ a -ℤ b
unfolding sub64
sub64_exact a b h = wrap64_exact (a -ℤ b) h

-- Counting one more below the largest int.
pub add64_one : (k : ℕ) → pos (suc k) ≤ℤ max_int → add64 (pos k) (pos 1) ≡ pos (suc k)
unfolding add64 ◌+ℤ◌
add64_one k h = ground (arith, wrap64_exact (pos k +ℤ pos 1))

pub add64_pos : (a b : ℕ) → pos (a + b) ≤ℤ max_int → add64 (pos a) (pos b) ≡ pos (a + b)
unfolding add64 ◌+ℤ◌
add64_pos a b h = ground (arith, wrap64_exact (pos a +ℤ pos b))

pub sub64_pos : (a b : ℕ) → b ≤ a → pos a ≤ℤ max_int → sub64 (pos a) (pos b) ≡ pos (a - b)
unfolding sub64 ◌-ℤ◌
sub64_pos a b h small = ground (arith, wrap64_exact (pos a -ℤ pos b))

pub max_ℤ_bounds :
    (a b c : ℤ) → (a ≤ℤ max_ℤ a b) × (b ≤ℤ max_ℤ a b) × (a ≤ℤ c → b ≤ℤ c → max_ℤ a b ≤ℤ c)
max_ℤ_bounds a b c = ground arith

pub ≤ℤ_trans : (a b c : ℤ) → a ≤ℤ b → b ≤ℤ c → a ≤ℤ c
≤ℤ_trans a b c h k = omega arith
