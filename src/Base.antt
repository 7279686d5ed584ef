-- ===== src/Base.antt =====
-- The names that the other modules share: the libraries', passed on, and those of the children.
mod Tests
mod Raises
mod Keys
mod Sets
mod Sorting
mod Ints
mod Text
mod Codec
mod Groups
mod Dicts
mod Decimal
mod Orders
unfoldable pub use Tests.*
unfoldable pub use Raises.*
unfoldable pub use Keys.*
unfoldable pub use Sets.*
unfoldable pub use Sorting.*
unfoldable pub use Ints.*
unfoldable pub use Text.*
unfoldable pub use Codec.*
pub use Groups.*
unfoldable pub use Dicts.*
pub use Orders.*
unfoldable pub use Decimal.*
pub use Prim.Native.Nat.{ℕ, zero, suc, ◌+◌, ◌-◌, ◌*◌, ◌/◌, ◌%◌, ◌^◌, ◌≤◌, ◌<◌}
pub use Prim.Native.String.{String}
pub use mathlib.Core.Path.{◌≡◌, refl, sym, ap, ◌∙◌, subst}
pub use mathlib.Core.Logic.{◌≢◌, ◌↔◌, ◌⊎◌, inl, inr}
pub use mathlib.Core.Bool.{Bool, true, false, ◌&&◌, ◌||◌, not}
pub use mathlib.Core.Option.{Option, none, some}
pub use mathlib.Core.List.{List, [], ◌∷◌, ◌++◌, map, Perm}
pub use native.Mathlib.Omega.{arith}
pub use text.Mathlib.TextEquality.{eq_iff}
