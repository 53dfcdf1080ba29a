-- ===== src/Common.antt =====
-- The names that the modules share: those of the libraries, passed on, and those of the children.
mod Tests
mod Lists
mod Pairs
mod Int
mod Texts
mod Dicts
mod Sort
mod Float
mod Environment
pub use Tests.*
pub use Lists.*
pub use Pairs.*
pub use Int.*
pub use Texts.*
unfoldable pub use Int.{saturated, time_sub}
unfoldable pub use Texts.{
  text_eq, text_lt, has_prefix, contains_text, is_space, trim_left, trim_right, trim_space,
  split_at, cut,
}
pub use Dicts.*
unfoldable pub use Dicts.{lookup, insert, erase}
pub use Sort.*
unfoldable pub use Sort.{insert_by, insertion_sort}
pub use Float.*
unfoldable pub use Float.{is_nan, float_rank, float_lt, float_eq, float_le, float_neg, clamp_unit}
pub use Environment.*
pub use Prim.Native.Nat.{ℕ, zero, suc, ◌+◌, ◌-◌, ◌*◌, ◌/◌, ◌%◌, ◌^◌, ◌≤◌, ◌<◌, min}
pub use mathlib.Core.Path.{◌≡◌, refl, sym, ap, ◌∙◌, subst}
pub use mathlib.Core.Logic.{◌≢◌, ◌↔◌, ◌⊎◌, inl, inr}
pub use mathlib.Core.Bool.{Bool, true, false, not, ◌&&◌, ◌||◌}
pub use mathlib.Core.Option.{Option, none, some}
pub use mathlib.Core.List.{List, [], ◌∷◌, ◌++◌, map, Permᴰ}
pub use native.Mathlib.Omega.{arith}
