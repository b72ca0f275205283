-- ===== src/Base.antt =====
-- The names that the other modules share: those of the libraries, passed on, the Boolean tests, the
-- lists over native numbers, the interface of decidable equality and the maps over it.
mod Tests
mod Lists
mod Words
pub mod Equality
pub mod Assoc
pub mod Sets
pub mod TextOrder
pub use Tests.*
unfoldable pub use Lists.*
unfoldable pub use Words.*
pub use Prim.Native.Nat.{ℕ, zero, suc, ◌+◌, ◌-◌, ◌*◌, ◌/◌, ◌%◌, ◌^◌, ◌≤◌, ◌<◌, max, min}
pub use Prim.Native.String.{String}
pub use mathlib.Core.Path.{◌≡◌, refl, sym, ap, ◌∙◌, subst}
pub use mathlib.Core.Logic.{◌≢◌, ◌↔◌, ◌⊎◌, inl, inr}
pub use mathlib.Core.Bool.{Bool, true, false, not, ◌&&◌, ◌||◌}
pub use mathlib.Core.Option.{Option, none, some}
pub use mathlib.Core.List.{List, [], ◌∷◌, ◌++◌, map}
pub use native.Mathlib.Omega.{arith}
