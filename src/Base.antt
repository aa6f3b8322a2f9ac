-- ===== src/Base.antt =====
-- Names that every module of the development shares: the library names in use, Boolean tests on
-- the native numbers, lists with native indices, the outcome of Rust code, and counted loops.
mod Tests
mod Lists
mod Outcomes
mod Loops
mod Slices
pub mod Dict
pub use Tests.*
pub use Lists.*
unfoldable pub use Outcomes.*
unfoldable pub use Loops.*
unfoldable pub use Slices.*
pub use Prim.Native.Nat.{ℕ, zero, suc, ◌+◌, ◌-◌, ◌*◌, ◌/◌, ◌%◌, ◌^◌, ◌≤◌, ◌<◌, min, max}
pub use mathlib.Core.Path.{◌≡◌, refl, sym, ap, ◌∙◌, subst, fun_ext}
pub use mathlib.Core.Logic.{◌≢◌, ◌↔◌, ◌⊎◌, inl, inr}
pub use mathlib.Core.Bool.{Bool, true, false, not, ◌&&◌, ◌||◌}
pub use mathlib.Core.Option.{Option, none, some}
pub use mathlib.Core.List.{List, [], ◌∷◌, ◌++◌, map}
pub use native.Mathlib.Omega.{arith}
