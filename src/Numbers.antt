-- ===== src/Numbers.antt =====
-- JavaScript's `number`, as the operations that the services use. Prices and lengths are such
-- numbers; the development assumes of them only what a theorem names as a hypothesis.
use jhaz_imprints.Common.{
  ℕ, ◌+◌, ◌-◌, ◌*◌, ◌/◌, String, Bool, not, ◌&&◌, Option, none, some, ltb, leb, eqb, if◌then◌else◌,
}
use jhaz_imprints.Common.Text.{decimal}

pub record Arith (F : Type 0) : Type 0 where
  pub of_nat : ℕ → F
  pub add : F → F → F
  pub sub : F → F → F
  pub mul : F → F → F
  pub div : F → F → F
  pub max : F → F → F
  pub abs : F → F
  pub round : F → F
  pub ceil : F → F
  pub epsilon : F
  -- `a < b`, `a <= b` and `a === b`
  pub lt : F → F → Bool
  pub le : F → F → Bool
  pub eq : F → F → Bool
  -- the text of a template literal or of `toLocaleString`
  pub show : F → String

module _ {F : Type 0} (num : Arith F) where
  -- The literal `n / d`: the nearest number to it, as division gives.
  abbrev pub literal : ℕ → ℕ → F
  literal n d = num.div (num.of_nat n) (num.of_nat d)

  -- Neither 0 nor NaN.
  abbrev pub is_truthy : F → Bool
  is_truthy x = num.eq x x && not (num.eq x (num.of_nat 0))

  -- `x || 0`
  abbrev pub or_zero : Option F → F
  or_zero none = num.of_nat 0
  or_zero (some x) = if is_truthy x then x else num.of_nat 0

-- Thousandths as natural numbers, for the witnesses: exact where no value falls below zero.
abbrev pub milli : Arith ℕ
milli = record {
  of_nat = λ n. n * 1000;
  add = λ a b. a + b;
  sub = λ a b. a - b;
  mul = λ a b. a * b / 1000;
  div = λ a b. a * 1000 / b;
  max = λ a b. if ltb a b then b else a;
  abs = λ a. a;
  round = λ a. (a + 500) / 1000 * 1000;
  ceil = λ a. (a + 999) / 1000 * 1000;
  epsilon = 0;
  lt = ltb;
  le = leb;
  eq = eqb;
  show = decimal;
}
