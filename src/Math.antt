-- ===== src/Math.antt =====
-- The checked arithmetic of another crate (`gufo_common::math`, `Checked` and its `check`), which
-- the code uses with operands that are not negative: operations by the bound of the integer type,
-- and what the code relies on.
use glycin.Base.{ℕ, ◌-◌, ◌*◌, ◌≤◌, ◌<◌, ◌≡◌, arith, Option, some, none, checked_mul, checked_sub}

pub record Checked : Type 0 where
  pub mul : ℕ → ℕ → ℕ → Option ℕ
  pub sub : ℕ → ℕ → Option ℕ

-- A result that the type can hold is returned, and any other is an error.
pub record IsChecked (math : Checked) : Type 0 where
  pub mul_fits : (bound a b : ℕ) → a * b < bound → math.mul bound a b ≡ some (a * b)
  pub mul_overflow : (bound a b : ℕ) → bound ≤ a * b → math.mul bound a b ≡ none
  pub sub_fits : (a b : ℕ) → b ≤ a → math.sub a b ≡ some (a - b)
  pub sub_underflow : (a b : ℕ) → a < b → math.sub a b ≡ none

-- The operations of the standard library meet this.
abbrev pub standard : Checked
standard = record { mul = checked_mul; sub = checked_sub }

pub standard-IsChecked : IsChecked standard
standard-IsChecked = record {
  mul_fits = λ bound a b h. ground arith;
  mul_overflow = λ bound a b h. ground arith;
  sub_fits = λ a b h. ground arith;
  sub_underflow = λ a b h. ground arith;
}
