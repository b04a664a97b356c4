-- ===== src/Base.antt =====
-- The names that the other modules share: the libraries', passed on, and those of the children.
mod Tests
mod Lists
pub mod Int
pub mod Strings
pub mod Maps
pub use Tests.*
pub use Lists.*
pub use Int.{ℤ, pos, negsuc, is_negative, is_code, IsInt32, IsPositive}
unfoldable pub use Int.{neg_int, to_word, of_word, to_int32, to_int64, neg_long, ◌+ℤ◌, ◌-ℤ◌, lt_int}
pub use Int.{
  neg_int-negative, neg_int-neg_int, to_int32_lem, to_int32-neg_int-neg_int,
  to_int32-neg_long-neg_int, sub_int, add_int, lt_int_lem,
}
pub use Strings.{Text, HasNoNul}
unfoldable pub use Strings.{bytes, text_eq}
pub use Strings.{text_eq_iff}
pub use Maps.{Dict}
unfoldable pub use Maps.{lookup}
pub use Maps.{lookup-insert, lookup-erase}
unfoldable pub use Maps.{insert, erase}
pub use Prim.Native.Nat.{ℕ, zero, suc, ◌+◌, ◌-◌, ◌*◌, ◌/◌, ◌%◌, ◌^◌, ◌≤◌, ◌<◌}
pub use mathlib.Core.Path.{◌≡◌, refl, sym, ap, ◌∙◌}
pub use mathlib.Core.Logic.{◌≢◌, ◌↔◌, ◌⊎◌, inl, inr}
pub use mathlib.Core.Bool.{Bool, true, false, ◌&&◌, ◌||◌}
pub use mathlib.Core.Option.{Option, none, some}
pub use mathlib.Core.List.{List, [], ◌∷◌, ◌++◌, append_assoc, append-nil}
pub use native.Mathlib.Omega.{arith}
