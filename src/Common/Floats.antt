-- ===== src/Common/Floats.antt =====
-- Python's floats, as far as the program computes with fractions of a program. They are not
-- implemented here: the arithmetic and the comparison are parameters, and the laws are what IEEE 754
-- says of `<` on numbers that are not NaN.
use Prim.Native.Nat.{ℕ}
use mathlib.Core.Path.{◌≡◌}
use mathlib.Core.Bool.{Bool, true, false}

pub record Floats : Type 1 where
  pub Float : Type 0
  pub zero : Float
  pub one : Float
  pub lt : Float → Float → Bool
  pub add : Float → Float → Float
  -- the quotient of two integers, `a / b`
  pub ratio : ℕ → ℕ → Float
  -- `round(100 * x, 1)`
  pub percent : Float → Float
  -- `round(x, 1)` and `round(x, 2)`
  pub round_1 : Float → Float
  pub round_2 : Float → Float
  pub lt_irrefl : (a : Float) → lt a a ≡ false
  pub lt_trans : (a b c : Float) → lt a b ≡ true → lt b c ≡ true → lt a c ≡ true
  pub zero_lt_one : lt zero one ≡ true
