-- ===== src/Base.antt =====
-- The names that every module shares: those of the libraries, passed on, Boolean tests, lists over
-- the native numbers, and the laws of `|` and `&`.
mod Tests
mod Lists
mod Bits
mod Text
mod Below
pub use Tests.*
pub use Lists.*
pub use Bits.*
pub use Text.*
unfoldable pub use Below.*
pub use Prim.Native.Nat.{ℕ, zero, suc, ◌+◌, ◌-◌, ◌*◌, ◌/◌, ◌%◌, ◌^◌, ◌≤◌, ◌<◌, bit_and, bit_or}
pub use mathlib.Core.Path.{◌≡◌, refl, sym, ap, ◌∙◌, subst}
pub use mathlib.Core.Logic.{◌≢◌, ◌↔◌, ◌⊎◌, inl, inr}
pub use mathlib.Core.Bool.{Bool, true, false, not, ◌&&◌, ◌||◌}
pub use mathlib.Core.Option.{Option, none, some}
pub use mathlib.Core.List.{List, [], ◌∷◌, ◌++◌, map}
pub use native.Mathlib.Omega.{arith}
