-- ===== src/Base.antt =====
-- The names that the other modules share: the libraries', passed on, and those of the children:
-- tests on numbers, lists measured by native numbers, texts as lists of code points, and machine
-- words.
mod Tests
mod Lists
mod Texts
pub mod Sort
pub mod Bits
pub mod Digits
pub mod Hex
pub mod Ascii
pub use Tests.*
pub use Lists.*
pub use Texts.{Text, text_eq_sound, text_eq_refl}
pub use Texts.{cons_head}
unfoldable pub use Texts.{
  codes, text_eq, starts_with, split_once, rsplit_once, split, is_digit, digits_value,
  is_whitespace, trim_start, trim_end, trim, strip_start, decimal,
}
pub use Prim.Native.Nat.{ℕ, zero, suc, ◌+◌, ◌-◌, ◌*◌, ◌/◌, ◌%◌, ◌^◌, ◌≤◌, ◌<◌, min, max, bit_xor}
pub use Prim.Native.String.{String}
pub use mathlib.Core.Path.{◌≡◌, refl, sym, ap, ap₂, subst, ◌∙◌}
pub use mathlib.Core.Logic.{◌≢◌, ◌↔◌, ◌⊎◌, inl, inr}
pub use mathlib.Core.Bool.{Bool, true, false, not, ◌&&◌, ◌||◌}
pub use mathlib.Core.Option.{Option, none, some}
pub use mathlib.Core.List.{List, [], ◌∷◌, ◌++◌, map}
pub use native.Mathlib.Omega.{arith}
