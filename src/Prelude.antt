-- ===== src/Prelude.antt =====
-- The names that the other modules share: those of the libraries, passed on, and those of the
-- children, which hold the Boolean tests, the lists, the dictionaries and the signed integers.
mod Tests
mod Lists
mod Maps
mod Int
mod Text
mod Runes
pub use Tests.*
pub use Lists.*
unfoldable pub use Maps.{get, insert, delete}
pub use Maps.{Dict, get-insert, get-delete, get-insert_self, insert-entries}
unfoldable pub use Runes.{rune_text}
pub use Int.*
unfoldable pub use Text.{decimal, trim_prefix, split, all_runes}
pub use Text.{
  codes, contains, trim_prefix-append, decimal_injective, prefix-decimal_injective,
  all_runes-append, all_runes-decimal,
}
pub use Prim.Native.Nat.{ℕ, zero, suc, ◌+◌, ◌-◌, ◌*◌, ◌/◌, ◌%◌, ◌^◌, ◌≤◌, ◌<◌}
pub use Prim.Native.String.{String, ◌++◌ as ◌<>◌}
pub use mathlib.Core.Path.{◌≡◌, refl, sym, ap, ◌∙◌, subst}
pub use mathlib.Core.Logic.{◌≢◌, ◌↔◌, ◌⊎◌, inl, inr}
pub use mathlib.Core.Bool.{Bool, true, false, not, ◌&&◌, ◌||◌}
pub use mathlib.Core.Option.{Option, none, some}
pub use mathlib.Core.List.{List, [], ◌∷◌, ◌++◌, map, reverse}
pub use native.Mathlib.Omega.{arith}
pub use text.Mathlib.TextEquality.{eq_iff}
pub use text.Mathlib.TextPositions.{eq_refl}
pub use text.Mathlib.Text.{starts_with}
pub use text.Mathlib.TextPositions.{starts_with-append}
