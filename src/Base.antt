-- ===== src/Base.antt =====
-- The names that the other modules share: the libraries', passed on, and those of the children.
mod Bools
mod Lists
mod Text
mod Outcome
mod Ints
mod Space
mod Decimal
mod Sort
mod Cuts
pub use Bools.*
pub use Lists.*
unfoldable pub use Text.*
unfoldable pub use Space.*
pub use Outcome.*
pub use Cuts.*
pub use Ints.*
unfoldable pub use Decimal.*
unfoldable pub use Sort.{insert, sort}
pub use Sort.{sort-Perm, str_ltb_asymm, str_ltb_trans}
pub use Prim.Native.Nat.{ℕ, zero, suc, ◌+◌, ◌-◌, ◌*◌, ◌/◌, ◌%◌, ◌^◌, ◌≤◌, ◌<◌}
pub use mathlib.Core.Path.{◌≡◌, refl, sym, ap, ◌∙◌}
pub use mathlib.Core.Logic.{◌≢◌, ◌↔◌, ◌⊎◌, inl, inr}
pub use mathlib.Core.Bool.{Bool, true, false, not, ◌&&◌, ◌||◌}
pub use mathlib.Core.Option.{Option, none, some}
pub use mathlib.Core.List.{List, [], ◌∷◌, ◌++◌, map, append_assoc, append-nil}
pub use native.Mathlib.Omega.{arith}
