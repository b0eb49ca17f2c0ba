-- ===== src/Prelude.antt =====
-- The names that the components share: the libraries', passed on, and those of the children.
pub mod Tests
pub mod Text
pub mod Lists
pub mod Sort
pub mod Ordered
pub mod Runes
pub use Tests.*
pub use Text.*
unfoldable pub use Lists.*
unfoldable pub use Sort.*
pub use Ordered.*
pub use Prim.Native.Nat.{ℕ, zero, suc, ◌+◌, ◌-◌, ◌*◌, ◌/◌, ◌%◌, ◌^◌, ◌≤◌, ◌<◌, min, max}
pub use Prim.Native.String.{String}
pub use mathlib.Core.Path.{◌≡◌, refl, sym, ap, ◌∙◌, subst, ap₂}
pub use mathlib.Core.Logic.{◌≢◌, ◌↔◌, ◌⊎◌, inl, inr}
pub use mathlib.Core.Bool.{Bool, true, false, not, ◌&&◌, ◌||◌}
pub use mathlib.Core.Option.{Option, none, some}
pub use mathlib.Core.List.{List, [], ◌∷◌, ◌++◌, map}
pub use native.Mathlib.Omega.{arith}
