-- ===== src/Common.antt =====
-- Names that every module shares: the libraries', passed on, Boolean tests on the native numbers,
-- lists measured by native numbers, and texts as code points.
mod Tests
mod Lists
mod Members
mod Text
mod Encoding
mod Hex
mod Printing
pub use Tests.*
pub use Lists.*
pub use Members.*
pub use Text.*
unfoldable pub use Encoding.*
unfoldable pub use Hex.*
unfoldable pub use Printing.*
pub use Prim.Native.Nat.{ℕ, zero, suc, ◌+◌, ◌-◌, ◌*◌, ◌/◌, ◌%◌, ◌^◌, ◌≤◌, ◌<◌, min, max}
pub use Prim.Native.String.{String}
pub use mathlib.Core.Path.{◌≡◌, refl, sym, ap, ◌∙◌}
pub use mathlib.Core.Logic.{◌≢◌, ◌↔◌, ◌⊎◌, inl, inr}
pub use mathlib.Core.Bool.{Bool, true, false, not, ◌&&◌, ◌||◌}
pub use mathlib.Core.Option.{Option, none, some}
pub use mathlib.Core.List.{List, [], ◌∷◌, ◌++◌, map, append_assoc, append-nil}
pub use native.Mathlib.Omega.{arith}
pub use text.Mathlib.TextEquality.{eq_iff}
pub use text.Mathlib.TextPositions.{eq_refl}
