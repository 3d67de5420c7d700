-- ===== src/Common/Tenths.antt =====
-- Fractions in tenths, a small instance of the floats for the examples.
use linuxcnc_status_monitor.Common.{ℕ, ◌+◌, ◌*◌, ◌/◌, ◌≡◌, true, false, refl, ltb, arith}
use linuxcnc_status_monitor.Common.Floats.{Floats}

pub tenth_irrefl : (a : ℕ) → ltb a a ≡ false
tenth_irrefl a = ground arith

pub tenth_trans : (a b c : ℕ) → ltb a b ≡ true → ltb b c ≡ true → ltb a c ≡ true
tenth_trans a b c h k = ground arith

instance abbrev pub tenths : Floats
tenths = record {
  Float = ℕ;
  zero = 0;
  one = 10;
  lt = ltb;
  add = λ a b. a + b;
  ratio = λ a b. 10 * a / b;
  percent = λ a. 10 * a;
  round_1 = λ a. a;
  round_2 = λ a. a;
  lt_irrefl = tenth_irrefl;
  lt_trans = tenth_trans;
  zero_lt_one = refl;
}
