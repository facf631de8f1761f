-- ===== src/Common/Floats.antt =====
-- Python's `float`: a type with its operations, as a parameter. No law of arithmetic is assumed; a
-- theorem that needs one names it.
use Prim.Native.Nat.{ℕ, ◌+◌, ◌-◌, ◌*◌, ◌/◌, ◌^◌}
use mathlib.Core.Path.{◌≡◌}
use mathlib.Core.Bool.{Bool, true, false}
use mathlib.Core.List.{List, [], ◌∷◌}
use native.Mathlib.Omega.{arith}
use computer_vision.Common.Tests.{ltb, leb, if◌then◌else◌}

pub record Numbers : Type 1 where
  pub Number : Type 0
  pub add : Number → Number → Number
  pub sub : Number → Number → Number
  pub mul : Number → Number → Number
  pub div : Number → Number → Number
  pub lt : Number → Number → Bool
  pub le : Number → Number → Bool
  -- The literal with these digits and so many of them after the point: 0.66 is `decimal 66 2`.
  pub decimal : ℕ → ℕ → Number

module _ (n : Numbers) where
  abbrev pub whole : ℕ → n.Number
  whole k = n.decimal k 0

  -- `max(a, b)` and `min(a, b)` keep the first of two that compare as neither.
  abbrev pub max_of : n.Number → n.Number → n.Number
  max_of a b = if n.lt a b then b else a

  abbrev pub min_of : n.Number → n.Number → n.Number
  min_of a b = if n.lt b a then b else a

  -- `sum`, from the left and from 0.
  abbrev pub sum_from : n.Number → List n.Number → n.Number
  sum_from acc [] = acc
  sum_from acc (x ∷ xs) = sum_from (n.add acc x) xs

  abbrev pub sum : List n.Number → n.Number
  sum xs = sum_from (whole 0) xs

-- What the comparisons satisfy where no number is a NaN.
pub record IsOrdered (n : Numbers) : Type 0 where
  pub lt_of_not_le : (a b : n.Number) → n.le a b ≡ false → n.lt b a ≡ true
  pub le_of_not_lt : (a b : n.Number) → n.lt a b ≡ false → n.le b a ≡ true
  pub not_le_of_lt : (a b : n.Number) → n.lt a b ≡ true → n.le b a ≡ false
  pub not_lt_of_lt : (a b : n.Number) → n.lt a b ≡ true → n.lt b a ≡ false
  pub le_refl : (a : n.Number) → n.le a a ≡ true
  pub whole_le : (k : ℕ) → n.le (whole n 0) (whole n k) ≡ true

-- Numbers in whole thousandths, none below 0, for the examples.
abbrev pub thousandths : Numbers
thousandths = record {
  Number = ℕ;
  add = λ a b. a + b;
  sub = λ a b. a - b;
  mul = λ a b. a * b / 1000;
  div = λ a b. a * 1000 / b;
  lt = ltb;
  le = leb;
  decimal = λ digits places. digits * 1000 / 10 ^ places;
}

pub thousandths-IsOrdered : IsOrdered thousandths
thousandths-IsOrdered = record {
  lt_of_not_le = λ a b h. ground arith;
  le_of_not_lt = λ a b h. ground arith;
  not_le_of_lt = λ a b h. ground arith;
  not_lt_of_lt = λ a b h. ground arith;
  le_refl = λ a. ground arith;
  whole_le = λ k. ground arith;
}
