-- ===== src/Prelude.antt =====
-- The names that the other modules share: the libraries', passed on, and those of the children.
pub mod Tests
pub mod Lists
pub mod Sort
pub mod Dicts
pub mod Results
pub mod Texts
pub mod Ints
pub use Ints.{ℤ, pos, negsuc, pos_part, neg_part, sub_ℕ, ◌≤ℤ◌, leb_ℤ}
pub use Tests.*
pub use Lists.*
pub use Results.*
pub use Texts.{is_empty}
unfoldable pub use Texts.{String-discrete, is_blank}
pub use Dicts.{Dict, is_some, contains, values, lookup-insert, member, member_iff}
unfoldable pub use Dicts.{lookup, insert}
pub use Sort.{IsSortedBy, IsOrder, IsIn-sort_by, sort_by-IsIn, length-sort_by, sort_by-IsSortedBy}
unfoldable pub use Sort.{sort_by}
pub use Prim.Native.Nat.{ℕ, zero, suc, ◌+◌, ◌-◌, ◌*◌, ◌/◌, ◌%◌, ◌≤◌, ◌<◌}
pub use Prim.Native.String.{String}
pub use mathlib.Core.Path.{◌≡◌, refl, sym, ap, ◌∙◌, subst}
pub use mathlib.Core.Logic.{◌≢◌, ◌↔◌, ◌⊎◌, inl, inr}
pub use mathlib.Core.Bool.{Bool, true, false, not, ◌&&◌, ◌||◌}
pub use mathlib.Core.Option.{Option, none, some}
pub use mathlib.Core.List.{List, [], ◌∷◌, ◌++◌, map}
pub use text.Mathlib.Text.{◌==◌ as str_eq}
pub use text.Mathlib.TextEquality.{eq_iff}
pub use native.Mathlib.Omega.{arith}
