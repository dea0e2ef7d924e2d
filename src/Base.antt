-- ===== src/Base.antt =====
-- Names that the components share: those of the libraries, passed on, and those of the children.
mod Tests
mod Lists
mod Eq
mod Codes
pub mod Dict
pub mod Decimal
pub mod Substring
pub use Tests.*
pub use Lists.*
pub use Eq.{Equal, ◌==◌, nat_equal, contains, list_eq, list_eq_iff}
unfoldable pub use Codes.*
pub use Prim.Native.Nat.{ℕ, zero, suc, ◌+◌, ◌-◌, ◌*◌, ◌/◌, ◌%◌, ◌≤◌, ◌<◌, max, min}
pub use mathlib.Core.Path.{◌≡◌, refl, sym, ap, ◌∙◌}
pub use mathlib.Core.Logic.{◌≢◌, ◌↔◌, ◌⊎◌, inl, inr}
pub use mathlib.Core.Bool.{Bool, true, false, not, ◌&&◌, ◌||◌}
pub use mathlib.Core.Option.{Option, none, some}
pub use mathlib.Core.List.{List, [], ◌∷◌, ◌++◌, map}
pub use native.Mathlib.Omega.{arith}
