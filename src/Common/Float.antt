-- ===== src/Common/Float.antt =====
-- Go's `float64`: a type with the operations that the program calls. Both are parameters of the
-- model; no theorem relies on a law of IEEE 754 arithmetic.
use fa_st_gshare.Common.Int.{ℤ, pos}
use fa_st_gshare.Common.{Bool}

pub record Floats (F : Type 0) : Type 0 where
  pub add : F → F → F
  pub sub : F → F → F
  pub mul : F → F → F
  pub div : F → F → F
  -- `float64(n)`; every numeral of the source is the conversion of an integer.
  pub of_int : ℤ → F
  -- `a > b`
  pub gt : F → F → Bool

module _ {F : Type 0} ⦃fl : Floats F⦄ where
  abbrev pub one : F
  one = fl.of_int (pos 1)

  abbrev pub zero_float : F
  zero_float = fl.of_int (pos 0)

  abbrev pub hundred : F
  hundred = fl.of_int (pos 100)
