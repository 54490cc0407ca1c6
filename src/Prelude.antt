-- ===== src/Prelude.antt =====
-- The names that the other modules share: the libraries', passed on, and those of the children.
mod Tests
mod Lists
mod Text
mod Sort
pub mod Int
pub mod Result
pub use Tests.*
pub use Lists.*
unfoldable pub use Text.{lookup, insert, contains, dedup, is_unique, add, intersects}
pub use Text.{
  keys, contains-append, contains-dedup, dedup-is_unique, contains_of_Memᴰ, Memᴰ_of_contains,
  lookup-insert, contains-eq-false_of_ne, contains-add,
}
unfoldable pub use Sort.{insert_by, sort_by, min_by}
pub use Sort.{IsSortedBy, sort_by-perm, sort_by-IsSortedBy, Memᴰ-sort_by, length-sort_by}
pub use Prim.Native.Nat.{ℕ, zero, suc, ◌+◌, ◌-◌, ◌*◌, ◌/◌, ◌%◌, ◌≤◌, ◌<◌}
pub use Prim.Native.String.{String}
pub use text.Mathlib.Text.{◌==◌}
pub use text.Mathlib.TextEquality.{eq_iff}
pub use mathlib.Core.Path.{◌≡◌, refl, sym, ap, ◌∙◌, subst}
pub use mathlib.Core.Logic.{◌≢◌, ◌↔◌, ◌⊎◌, inl, inr}
pub use mathlib.Core.Bool.{Bool, true, false, not, ◌&&◌, ◌||◌, false≢true}
pub use mathlib.Core.Option.{Option, none, some}
pub use mathlib.Core.List.{List, [], ◌∷◌, ◌++◌, map, Memᴰ, Perm}
pub use native.Mathlib.Omega.{arith}
