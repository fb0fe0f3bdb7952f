-- ===== src/Base.antt =====
-- Names that every module shares: the libraries', passed on, and those of the children below.
-- Nothing here models code of the kernel by itself.
mod Tests
mod Lists
pub mod Slices
mod Each
mod Words
pub mod Bits
pub mod Bytes
pub mod Int
pub use Tests.*
unfoldable pub use Lists.*
pub use Words.*
pub use Each.*
pub use Prim.Native.Nat.{ℕ, zero, suc, ◌+◌, ◌-◌, ◌*◌, ◌/◌, ◌%◌, ◌^◌, ◌≤◌, ◌<◌, min}
pub use mathlib.Core.Path.{◌≡◌, refl, sym, ap, ◌∙◌}
pub use mathlib.Core.Logic.{◌≢◌, ◌↔◌, ◌⊎◌, inl, inr}
pub use mathlib.Core.Bool.{Bool, true, false, not, ◌&&◌, ◌||◌}
pub use mathlib.Core.Option.{Option, none, some}
pub use mathlib.Core.List.{List, [], ◌∷◌, ◌++◌, map}
pub use native.Mathlib.Omega.{arith}
