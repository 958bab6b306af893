-- ===== src/Domain/Millionths.antt =====
-- A number type that satisfies the laws asked of floats: positive multiples of a millionth, rounded up.
use llamacodelab.Prelude.{ℕ, ◌+◌, ◌-◌, ◌*◌, ◌/◌, true, arith, ltb, ◌==◌}
use llamacodelab.Domain.{Floats, Compares, Positives}

abbrev pub millionths : Floats
millionths = record {
  Float = ℕ;
  zero_f = 0;
  one_f = 1_000_000;
  less = ltb;
  equal = ◌==◌;
  add = ◌+◌;
  subtract = ◌-◌;
  multiply = λ a b. a * b / 1_000_000;
  divide = λ a b. a * 1_000_000 / b + 1;
  of_nat = λ n. n * 1_000_000;
  is_finite = λ a. true;
}

pub millionths-Compares : Compares millionths
millionths-Compares = record {
  trichotomy = λ x y hx hy. ground arith;
  less_trans = λ x y z p q. ground arith;
  less-equal = λ x y z p q. ground arith;
  equal-less = λ x y z p q. ground arith;
  equal_symm = λ x y p. ground arith;
  equal_trans = λ x y z p q. ground arith;
  finite_number = λ x h. ground arith;
}

pub millionths-Positives : Positives millionths
millionths-Positives = record {
  positive_number = λ x h. ground arith;
  add_zero = λ x h. ground arith;
  add_positive = λ x y h k. ground arith;
  reciprocal_positive = λ n h. ground arith;
}
