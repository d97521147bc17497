-- ===== src/Collector/Floats.antt =====
-- Python's floats, which are not part of the repository: the operations that the alert rules use,
-- and the facts about IEEE doubles other than NaN that the rules rely on.
use googletrends.Base.{ℕ, ◌+◌, ◌*◌, ◌/◌, ◌-◌, ◌^◌, ◌≡◌, Bool, true, false, not, leb, ltb, arith}

pub record Floats (R : Type 0) : Type 0 where
  -- `float(n)`
  pub of_nat : ℕ → R
  -- the literal with digits `m` and `e` of them behind the point
  pub literal : ℕ → ℕ → R
  pub plus : R → R → R
  pub minus : R → R → R
  pub times : R → R → R
  pub over : R → R → R
  -- `<=` and `<`
  pub le : R → R → Bool
  pub lt : R → R → Bool
  -- `round(x, 2)`
  pub round2 : R → R

-- `<` is the failure of `<=` the other way round, `<=` is transitive, whole numbers up to 2^53 keep
-- their order, and a difference of at least a positive number has its larger term first.
pub record IsFloats {R : Type 0} (F : Floats R) : Type 0 where
  pub lt-not-le : (x y : R) → F.lt x y ≡ not (F.le y x)
  pub le_trans : (x y z : R) → F.le x y ≡ true → F.le y z ≡ true → F.le x z ≡ true
  pub le_total : (x y : R) → F.le x y ≡ false → F.le y x ≡ true
  pub of_nat_lt :
      (m n : ℕ) → ltb m n ≡ true → leb n (2 ^ 53) ≡ true → F.lt (F.of_nat m) (F.of_nat n) ≡ true
  pub lt_of_minus :
      (x y d : R) → F.lt (F.of_nat 0) d ≡ true → F.le d (F.minus x y) ≡ true → F.lt y x ≡ true

-- The laws can be met: thousandths, with subtraction stopped at 0.
abbrev pub thousandths : Floats ℕ
thousandths = record {
  of_nat = λ n. n * 1000;
  literal = λ m e. m * 1000 / 10 ^ e;
  plus = λ x y. x + y;
  minus = λ x y. x - y;
  times = λ x y. x * y / 1000;
  over = λ x y. x * 1000 / y;
  le = leb;
  lt = ltb;
  round2 = λ x. (x + 5) / 10 * 10;
}

pub thousandths-IsFloats : IsFloats thousandths
thousandths-IsFloats = record {
  lt-not-le = λ x y. ground arith;
  le_trans = λ x y z h k. ground arith;
  le_total = λ x y h. ground arith;
  of_nat_lt = λ m n h k. ground arith;
  lt_of_minus = λ x y d h k. ground arith;
}
