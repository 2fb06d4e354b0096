-- ===== src/Base.antt =====
-- The names that every module shares: the libraries', passed on, and those of the children
-- (Boolean tests on numbers, lists with native indices, signed integers, texts).
mod Tests
mod Lists
pub mod Int
pub mod Text
pub mod Slots
pub mod Assoc
pub mod Nested
pub mod Members
pub mod Float
pub mod Parse
pub use Tests.*
pub use Lists.*
pub use Prim.Native.Nat.{ℕ, zero, suc, ◌+◌, ◌-◌, ◌*◌, ◌/◌, ◌%◌, ◌^◌, ◌≤◌, ◌<◌, min, max}
pub use mathlib.Core.Path.{◌≡◌, refl, sym, ap, ap₂, ◌∙◌, subst}
pub use mathlib.Core.Logic.{◌≢◌, ◌↔◌, ◌⊎◌, inl, inr}
pub use mathlib.Core.Bool.{Bool, true, false, not, ◌&&◌, ◌||◌}
pub use mathlib.Core.Option.{Option, none, some}
pub use mathlib.Core.List.{List, [], ◌∷◌, ◌++◌, map, reverse}
pub use native.Mathlib.Omega.{arith}
