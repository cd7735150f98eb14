-- ===== src/Fpu.antt =====
-- Arithmetic on doubles, which the language of the source provides. A double is its 64 bits, and the
-- pattern 0 is the number 0.
use motoros.Prelude.{ℤ, Bool}
use motoros.Data.{Double}

pub record Fpu : Type 0 where
  pub add : Double → Double → Double
  pub sub : Double → Double → Double
  pub mul : Double → Double → Double
  pub div : Double → Double → Double
  pub neg : Double → Double
  pub fabs : Double → Double
  pub lt : Double → Double → Bool
  pub of_int : ℤ → Double
  -- the conversion `(int)x`, which cuts off the fraction
  pub to_int : Double → ℤ
  -- EPSILON_TOLERANCE_DOUBLE
  pub epsilon : Double
  -- the literal 0.000001
  pub millionth : Double
  -- RAD_PER_DEGREE, DEGREES_PER_RAD and the literal .0001
  pub rad_per_degree : Double
  pub degrees_per_rad : Double
  pub ten_thousandth : Double
  -- math.h
  pub sin : Double → Double
  pub cos : Double → Double
  pub asin : Double → Double
  pub atan2 : Double → Double → Double
