-- ===== src/Base.antt =====
-- Names that every module shares: the libraries' ones, passed on, and those of the children.
mod Tests
mod Dict
mod Text
mod Decimal
pub mod Strings
pub mod Action
pub use Tests.*
unfoldable pub use Dict.{remove, insert, lookup, any_entry}
pub use Dict.{lookup-insert, lookup-remove, any_entry-lookup}
pub use Prim.Native.Nat.{ℕ, zero, suc, ◌+◌, ◌-◌, ◌*◌, ◌/◌, ◌%◌, ◌≤◌, ◌<◌}
pub use Prim.Native.String.{String}
pub use mathlib.Core.Path.{◌≡◌, refl, sym, ap, ◌∙◌, subst}
pub use mathlib.Core.Logic.{◌≢◌, ◌↔◌, ◌⊎◌, inl, inr}
pub use mathlib.Core.Bool.{Bool, true, false, not, ◌&&◌, ◌||◌}
pub use mathlib.Core.Option.{Option, none, some}
pub use mathlib.Core.List.{List, [], ◌∷◌, ◌++◌, map}
pub use native.Mathlib.Omega.{arith}
pub use text.Mathlib.Text.{◌==◌}
pub use text.Mathlib.TextEquality.{eq_iff}
pub use text.Mathlib.TextPositions.{eq_refl}
unfoldable pub use Text.{
  lower, equal_codes, equal_fold, lower_is, string_le, sort, equal_strings, mem_string,
}
pub use Text.{
  codes, is_empty, equal_codes_comm, equal_fold_comm, equal_strings→eq, equal_strings_self,
}
unfoldable pub use Decimal.{digit, decimal_from, decimal}
pub use Prim.Native.String.{◌++◌ as append}
