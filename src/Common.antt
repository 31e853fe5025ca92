-- ===== src/Common.antt =====
-- The names that the other modules share: the libraries', passed on, and those of the children.
mod Tests
mod Int
mod Lists
mod Text
pub use Tests.*
pub use Int.{
  ℤ, pos, negsuc, pos_part, neg_part, sub_ℕ, ◌≤ℤ◌, ◌<ℤ◌, ltb_ℤ, leb_ℤ, eq_ℤ, is_negative, abs,
}
pub use Int.{+ℤ_parts, -ℤ_parts, one_sign, eq_of_parts, eq_ℤ_iff, eq_ℤ_refl, int_laws}
unfoldable pub use Int.{◌+ℤ◌, ◌-ℤ◌}
pub use Lists.{length, is_empty_list, is_some, length-append, find?-sound, length-keep_if-le}
pub use Lists.{All, All-append, All-keep_if}
pub use Text.{value_from, digits_value}
unfoldable pub use Text.{digits, to_string}
unfoldable pub use Lists.{find?, keep_if, drop, same_text, contains_text}
pub use Lists.{same_text_iff}
pub use Prim.Native.Nat.{ℕ, zero, suc, ◌+◌, ◌-◌, ◌*◌, ◌/◌, ◌%◌, ◌≤◌, ◌<◌, max, min}
pub use Prim.Native.String.{String}
pub use mathlib.Core.Path.{◌≡◌, refl, sym, ap, ◌∙◌, fun_ext, subst}
pub use mathlib.Core.Logic.{◌≢◌, ◌↔◌, ◌⊎◌, inl, inr}
pub use mathlib.Core.Bool.{Bool, true, false, not, ◌&&◌, ◌||◌}
pub use mathlib.Core.Option.{Option, none, some}
pub use mathlib.Core.List.{List, [], ◌∷◌, ◌++◌, map}
pub use native.Mathlib.Omega.{arith}
