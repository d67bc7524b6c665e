-- ===== src/Satint.antt =====
-- llms/internal/satint/satint.go: saturating int arithmetic for the token accounting.
pub mod Bounds
use maestro_llms.Base.{◌&&◌, if◌then◌else◌}
use maestro_llms.Base.Int.{ℤ, pos, ltb_ℤ, max_int, min_int, add64, sub64}

-- `Add`: the guards are themselves computed in 64 bits.
unfoldable pub add : ℤ → ℤ → ℤ
unfolding add64 sub64
add a b =
    if ltb_ℤ (pos 0) b && ltb_ℤ (sub64 max_int b) a
    then max_int
    else if ltb_ℤ b (pos 0) && ltb_ℤ a (sub64 min_int b)
    then min_int
    else add64 a b

-- `Sub`.
unfoldable pub sub : ℤ → ℤ → ℤ
unfolding add64 sub64
sub a b =
    if ltb_ℤ b (pos 0) && ltb_ℤ (add64 max_int b) a
    then max_int
    else if ltb_ℤ (pos 0) b && ltb_ℤ a (add64 min_int b)
    then min_int
    else sub64 a b
