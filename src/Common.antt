-- ===== src/Common.antt =====
-- The names that the other modules share: the libraries', passed on, and those of the children:
-- tests and conditionals, lists, equality as an interface, Go maps and text.
mod Tests
mod Lists
mod Eq
mod Maps
pub mod Integers
pub mod Result
pub mod Text
pub use Tests.*
pub use Lists.*
pub use Eq.{Equality, eqb, eqb_refl, eqb_symm, nat_equality, string_equality}
pub use Maps.{Map, RangeOrder, HasUniqueKeys, lookup-store, store-HasUniqueKeys}
pub use Maps.{lookup-delete, delete_absent, delete-HasUniqueKeys, lookup-store_all, lookup-visit}
pub use Maps.{store_all-HasUniqueKeys, visit-HasUniqueKeys}
unfoldable pub use Maps.{lookup, store, delete, store_all}
pub use Prim.Native.Nat.{ℕ, zero, suc, ◌+◌, ◌-◌, ◌*◌, ◌/◌, ◌%◌, ◌^◌, ◌≤◌, ◌<◌}
pub use Prim.Native.String.{String}
pub use mathlib.Core.Path.{◌≡◌, refl, sym, ap, ◌∙◌, subst, fun_ext}
pub use mathlib.Core.Logic.{◌≢◌, ◌↔◌, ◌⊎◌, inl, inr}
pub use mathlib.Core.Bool.{Bool, true, false, ◌&&◌, ◌||◌, not}
pub use mathlib.Core.Option.{Option, none, some}
pub use mathlib.Core.List.{List, [], ◌∷◌, ◌++◌, map, foldl}
pub use native.Mathlib.Omega.{arith}
pub use text.Mathlib.Text.{◌==◌ as str_eq}
pub use text.Mathlib.TextEquality.{eq_iff}
unfoldable pub use native.Mathlib.Decide.{ℕ_discrete}
