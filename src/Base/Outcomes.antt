-- ===== src/Base/Outcomes.antt =====
-- What a call of Rust code comes to: a value, an error that it returns, or a panic.
use Prim.Native.Nat.{ℕ, ◌*◌, ◌+◌, ◌-◌, ◌<◌}
use mathlib.Core.Path.{◌≡◌}
use mathlib.Core.Bool.{Bool, true, false}
use mathlib.Core.Option.{Option, none, some}
use mathlib.Core.List.{List}
use native.Mathlib.Omega.{arith}
use glycin.Base.Tests.{ltb, if◌then◌else◌}
use glycin.Base.Lists.{get_elem?, get_or, set, length, get_elem?-eq-get_or}

pub data Outcome {ℓ} (E : Type 0) (A : Type ℓ) : Type ℓ where
  ok : A → Outcome E A
  err : E → Outcome E A
  panic : Outcome E A

infixl 5 ◌>>=◌ ◌>>◌
abbrev pub ◌>>=◌ {ℓ κ} :
    {E : Type 0} {A : Type ℓ} {B : Type κ} → Outcome E A → (A → Outcome E B) → Outcome E B
ok a >>= f = f a
err e >>= f = err e
panic >>= f = panic

abbrev pub ◌>>◌ {ℓ} : {E : Type 0} {B : Type ℓ} → Outcome E (Unit {0}) → Outcome E B → Outcome E B
m >> k = m >>= λ _. k

abbrev pub ok_or {ℓ} : {E : Type 0} {A : Type ℓ} → Option A → E → Outcome E A
ok_or none e = err e
ok_or (some a) e = ok a

abbrev pub or_panic {ℓ} : {E : Type 0} {A : Type ℓ} → Option A → Outcome E A
or_panic none = panic
or_panic (some a) = ok a

-- A return with an error, unless the test passes.
abbrev pub ensure : {E : Type 0} → Bool → E → Outcome E (Unit {0})
ensure true e = ok tt
ensure false e = err e

-- One past the largest `u32`, `i32`, `u64` (and `usize`, on a 64-bit target) and `i64`.
abbrev pub u32_mod : ℕ
u32_mod = 4294967296

abbrev pub i32_mod : ℕ
i32_mod = 2147483648

abbrev pub usize_mod : ℕ
usize_mod = 18446744073709551616

abbrev pub i64_mod : ℕ
i64_mod = 9223372036854775808

-- `checked_mul` and `checked_add` of an integer type with the values below `bound`.
abbrev pub checked_mul : ℕ → ℕ → ℕ → Option ℕ
checked_mul bound a b = if ltb (a * b) bound then some (a * b) else none

abbrev pub checked_add : ℕ → ℕ → ℕ → Option ℕ
checked_add bound a b = if ltb (a + b) bound then some (a + b) else none

abbrev pub checked_sub : ℕ → ℕ → Option ℕ
checked_sub a b = if ltb a b then none else some (a - b)

module _ {ℓ} {E : Type 0} {A : Type ℓ} where
  -- `xs[i]`, which panics out of bounds.
  unfoldable pub read : List A → ℕ → Outcome E A
  read xs i = or_panic (get_elem? xs i)

  -- `xs[i] = v`, which panics out of bounds.
  unfoldable pub write : List A → ℕ → A → Outcome E (List A)
  write xs i v = if ltb i (length xs) then ok (set xs i v) else panic

  pub read_lem : (xs : List A) (i : ℕ) (d : A) → i < length xs → read xs i ≡ ok (get_or xs i d)
  unfolding read
  read_lem xs i d h = ground (arith, get_elem?-eq-get_or xs i d)

  pub write_lem : (xs : List A) (i : ℕ) (v : A) → i < length xs → write xs i v ≡ ok (set xs i v)
  unfolding write
  write_lem xs i v h = ground arith
