-- ===== src/Common.antt =====
-- The names that every component shares: the libraries' own, passed on, and those of the children
-- (Boolean tests, lists over the native numbers, machine words, runs that may fault). `Bits` has
-- the laws of the bit operations.
mod Tests
mod Lists
mod Words
mod Runs
mod Int
pub mod Bits
pub mod Dict
pub mod Texts
pub use Tests.*
pub use Lists.*
pub use Words.*
pub use Runs.*
pub use Int.*
pub use Prim.Native.Nat.{
  ℕ, zero, suc, ◌+◌, ◌-◌, ◌*◌, ◌/◌, ◌%◌, ◌^◌, ◌≤◌, ◌<◌, max, bit_and, bit_or, bit_xor,
}
pub use mathlib.Core.Path.{◌≡◌, refl, sym, ap, ap₂, subst, ◌∙◌}
pub use mathlib.Core.Logic.{◌≢◌, ◌↔◌, ◌⊎◌, inl, inr}
pub use mathlib.Core.Bool.{Bool, true, false, not, ◌&&◌, ◌||◌}
pub use mathlib.Core.Option.{Option, none, some}
pub use mathlib.Core.List.{List, [], ◌∷◌, ◌++◌, map}
pub use native.Mathlib.Omega.{arith}
