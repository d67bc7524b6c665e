-- ===== src/Base/Float.antt =====
-- float64: the type and the operations that the program uses, as a record. The checker has no
-- floats, so a model that computes with them takes a `Float`, and its theorems hold for every one,
-- or for those with the laws that they name. A conversion to an integer is a function; what Go does
-- outside the range of the integer type is whatever that function does.
use maestro_llms.Base.Int.{ℤ}
use mathlib.Core.Bool.{Bool}
use maestro_llms.Base.Tests.{if◌then◌else◌}

pub record Float : Type 1 where
  pub F : Type 0
  pub of_int : ℤ → F
  pub to_int : F → ℤ
  pub plus : F → F → F
  pub minus : F → F → F
  pub times : F → F → F
  pub over : F → F → F
  -- `a < b` and `a <= b`
  pub lt : F → F → Bool
  pub le : F → F → Bool
  pub is_nan : F → Bool
  pub is_inf : F → Bool
  -- the constant a / b
  pub ratio : ℤ → ℤ → F

-- The built-in `min` of two floats: NaN where one of them is.
abbrev pub min_F : (fl : Float) → fl.F → fl.F → fl.F
min_F fl a b = if fl.is_nan a then a else if fl.is_nan b then b else if fl.lt b a then b else a
