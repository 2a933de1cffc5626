-- ===== src/Base.antt =====
-- The names that every module shares: numbers, lists, tests, and the outcomes of a Python call.
mod Tests
mod Lists
mod Python
pub mod Order
pub mod Bits
unfoldable pub use Tests.{bytes_eq}
unfoldable pub use Lists.{take, drop, replicate, slice, set_slice, range_from}
pub use Tests.*
pub use Lists.*
pub use Python.*
pub use Prim.Native.Nat.{ℕ, zero, suc, ◌+◌, ◌-◌, ◌*◌, ◌/◌, ◌%◌, ◌^◌, ◌≤◌, ◌<◌, max, min}
pub use Prim.Native.Nat.{bit_and, bit_or, bit_xor}
pub use mathlib.Core.Path.{◌≡◌, refl, sym, ap, ap₂, ◌∙◌}
pub use mathlib.Core.Logic.{◌≢◌, ◌↔◌, ◌⊎◌, inl, inr}
pub use mathlib.Core.Bool.{Bool, true, false, not, ◌&&◌, ◌||◌}
pub use mathlib.Core.Option.{Option, none, some}
pub use mathlib.Core.List.{List, [], ◌∷◌, ◌++◌, map}
pub use Prim.Native.String.{String}
pub use native.Mathlib.Omega.{arith}
