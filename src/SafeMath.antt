-- ===== src/SafeMath.antt =====
-- `glycin-utils/src/safe_math.rs`: checked arithmetic whose errors are `DimensionTooLargerError`, and
-- conversions between integer types. The numbers are not negative.
use glycin.Base.{
  ℕ, ◌%◌, ◌==◌, ltb, if◌then◌else◌, some, none, Outcome, ok_or, checked_mul, checked_add, u32_mod,
  i32_mod, usize_mod,
}

module _ {E : Type 0} (too_large : E) where
  -- `try_usize`, `try_u32`, `try_i32`, ..: by the bound of the type.
  unfoldable pub try_convert : ℕ → ℕ → Outcome E ℕ
  try_convert bound n = ok_or (if ltb n bound then some n else none) too_large

  abbrev pub try_usize : ℕ → Outcome E ℕ
  try_usize = try_convert usize_mod

  abbrev pub try_i32 : ℕ → Outcome E ℕ
  try_i32 = try_convert i32_mod

  abbrev pub try_u32 : ℕ → Outcome E ℕ
  try_u32 = try_convert u32_mod

  -- `smul` and `sadd` of the three types, by the bound.
  unfoldable pub smul : ℕ → ℕ → ℕ → Outcome E ℕ
  smul bound a b = ok_or (checked_mul bound a b) too_large

  unfoldable pub sadd : ℕ → ℕ → ℕ → Outcome E ℕ
  sadd bound a b = ok_or (checked_add bound a b) too_large

  -- `srem` of `usize`.
  unfoldable pub srem_usize : ℕ → ℕ → Outcome E ℕ
  srem_usize a b = ok_or (if b == 0 then none else some (a % b)) too_large

  -- `srem` of `u32` and `u64`, which adds.
  unfoldable pub srem : ℕ → ℕ → ℕ → Outcome E ℕ
  srem bound a b = ok_or (checked_add bound a b) too_large
