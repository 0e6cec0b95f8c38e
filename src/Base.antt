-- ===== src/Base.antt =====
-- The names that the other modules share: the libraries', passed on, and those of the children.
mod Tests
mod Lists
mod Strings
mod TextLaws
mod Split
mod Maps
mod Int
mod Outcome
pub use Tests.*
unfoldable pub use Lists.{count, sum_where}
pub use Lists.*
unfoldable pub use Strings.{
  str_eq, is_space, trim_left, trim_right, trim_space, lower, to_lower, contains,
}
pub use Strings.*
pub use TextLaws.*
unfoldable pub use Split.{split}
pub use Split.*
unfoldable pub use Maps.{get, put, keys, values, mem, str_ltb, sort_strings}
pub use Maps.*
pub use Int.*
pub use Outcome.*
pub use Prim.Native.Nat.{ℕ, zero, suc, ◌+◌, ◌-◌, ◌*◌, ◌/◌, ◌%◌, ◌^◌, ◌≤◌, ◌<◌}
pub use Prim.Native.String.{String}
pub use mathlib.Core.Path.{◌≡◌, refl, sym, ap, ◌∙◌}
pub use mathlib.Core.Logic.{◌≢◌, ◌↔◌, ◌⊎◌, inl, inr}
pub use mathlib.Core.Bool.{Bool, true, false, not, ◌&&◌, ◌||◌}
pub use mathlib.Core.Option.{Option, none, some}
pub use mathlib.Core.List.{List, [], ◌∷◌, ◌++◌, map}
pub use native.Mathlib.Omega.{arith}
