-- ===== src/Base.antt =====
-- Names that every module shares: those of the libraries, the Boolean tests, equality of keys,
-- results with exceptions, lists and maps. The integers are a module of their own.
mod Tests
mod Outcome
mod Lists
mod Text
pub mod Int
pub mod Rounding
pub mod Rows
unfoldable pub use Tests.*
unfoldable pub use Outcome.*
unfoldable pub use Lists.*
unfoldable pub use Text.*
pub use Prim.Native.Nat.{ℕ, zero, suc, ◌+◌, ◌-◌, ◌*◌, ◌/◌, ◌%◌, ◌^◌, ◌≤◌, ◌<◌}
pub use Prim.Native.String.{String}
pub use mathlib.Core.Path.{◌≡◌, refl, sym, ap, ◌∙◌}
pub use mathlib.Core.Logic.{◌≢◌, ◌↔◌, ◌⊎◌, inl, inr}
pub use mathlib.Core.Bool.{Bool, true, false, not, ◌&&◌, ◌||◌}
pub use mathlib.Core.Option.{Option, none, some, some-injective}
pub use mathlib.Core.List.{List, [], ◌∷◌, ◌++◌, map}
pub use native.Mathlib.Omega.{arith}
