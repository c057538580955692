-- ===== src/Prelude.antt =====
-- Shared names: those of the libraries, passed on, and the helpers of the children (Boolean tests,
-- lists over the native numbers, and the outcome of a kernel call).
mod Tests
mod Lists
mod Slices
mod Calls
pub mod Bits
pub use Tests.*
pub use Lists.*
pub use Slices.*
pub use Calls.*
pub use Prim.Native.Nat.{ℕ, zero, suc, ◌+◌, ◌-◌, ◌*◌, ◌/◌, ◌%◌, ◌^◌, ◌≤◌, ◌<◌}
pub use mathlib.Core.Path.{◌≡◌, refl, sym, ap, ◌∙◌}
pub use mathlib.Core.Logic.{◌≢◌, ◌↔◌, ◌⊎◌, inl, inr}
pub use mathlib.Core.Bool.{Bool, true, false, not, ◌&&◌, ◌||◌}
pub use mathlib.Core.Option.{Option, none, some}
pub use mathlib.Core.List.{List, [], ◌∷◌, ◌++◌, map}
pub use native.Mathlib.Omega.{arith}
