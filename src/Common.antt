-- ===== src/Common.antt =====
-- Names that every module shares: the libraries', passed on, and those of two children.
mod Tests
mod Lists
mod Predicates
mod Blocks
mod Texts
mod Assoc
pub mod Int
pub mod Decimal
pub use Tests.*
pub use Lists.*
pub use Predicates.*
pub use Blocks.*
pub use Texts.*
pub use Assoc.*
pub use Prim.Native.Nat.{ℕ, zero, suc, ◌+◌, ◌-◌, ◌*◌, ◌/◌, ◌%◌, ◌^◌, ◌≤◌, ◌<◌}
pub use mathlib.Core.Path.{◌≡◌, refl, sym, ap, ◌∙◌}
pub use mathlib.Core.Logic.{◌≢◌, ◌↔◌, ◌⊎◌, inl, inr}
pub use mathlib.Core.Bool.{Bool, true, false, not, ◌&&◌, ◌||◌}
pub use mathlib.Core.Option.{Option, none, some}
pub use mathlib.Core.List.{List, [], ◌∷◌, ◌++◌, map, append_assoc, append-nil}
pub use native.Mathlib.Omega.{arith}
