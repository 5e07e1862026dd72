-- ===== src/Base/Texts.antt =====
-- A text of the program (`String`, `&str`, bytes of ASCII) is the list of its code points.
use Prim.Native.Char.{code}
use Prim.Native.String.{String}
use Prim.Native.Nat.{ℕ, zero, suc, ◌+◌, ◌-◌, ◌*◌, ◌/◌, ◌%◌}
use mathlib.Core.Path.{◌≡◌, refl}
use mathlib.Core.Bool.{Bool, true, false, ◌&&◌, ◌||◌}
use mathlib.Core.List.{List, [], ◌∷◌, ◌++◌}
use mathlib.Core.Option.{Option, none, some}
use native.Mathlib.Omega.{arith}
use ollamux.Base.Tests.{◌==◌, if◌then◌else◌, ltb, leb}

abbrev pub Text : Type 0
Text = List ℕ

unfoldable pub codes : String → Text
codes String.[] = []
codes (String.◌∷◌ c s) = code c ∷ codes s

unfoldable pub text_eq : Text → Text → Bool
text_eq [] [] = true
text_eq [] (y ∷ ys) = false
text_eq (x ∷ xs) [] = false
text_eq (x ∷ xs) (y ∷ ys) = x == y && text_eq xs ys

pub text_eq_sound : (s t : Text) → text_eq s t ≡ true → s ≡ t
unfolding text_eq
text_eq_sound [] [] h = refl
text_eq_sound [] (y ∷ ys) h = cc
text_eq_sound (x ∷ xs) [] h = cc
text_eq_sound (x ∷ xs) (y ∷ ys) h = ground (arith, text_eq_sound xs ys)

pub text_eq_refl : (s : Text) → text_eq s s ≡ true
unfolding text_eq
text_eq_refl [] = refl
text_eq_refl (x ∷ xs) = ground (arith, text_eq_refl xs)

-- `str::starts_with`.
unfoldable pub starts_with : Text → Text → Bool
starts_with s [] = true
starts_with [] (p ∷ ps) = false
starts_with (x ∷ xs) (p ∷ ps) = x == p && starts_with xs ps

-- `str::split_once`: at the first such character.
unfoldable pub split_once : ℕ → Text → Option (Text × Text)
split_once sep [] = none
split_once sep (c ∷ cs) =
    if c == sep
    then some ([], cs)
    else (elim (split_once sep cs) [ none ↦ none | some (l, r) ↦ some (c ∷ l, r) ])

-- `str::rsplit_once`: at the last such character.
unfoldable pub rsplit_once : ℕ → Text → Option (Text × Text)
rsplit_once sep [] = none
rsplit_once sep (c ∷ cs) = elim (rsplit_once sep cs) [
  | some (l, r) ↦ some (c ∷ l, r)
  | none ↦ if c == sep then some ([], cs) else none
]

abbrev pub cons_head : ℕ → List Text → List Text
cons_head c [] = (c ∷ []) ∷ []
cons_head c (t ∷ ts) = (c ∷ t) ∷ ts

-- `str::split`: a text with n separators has n + 1 parts.
unfoldable pub split : ℕ → Text → List Text
split sep [] = [] ∷ []
split sep (c ∷ cs) = if c == sep then [] ∷ split sep cs else cons_head c (split sep cs)

unfoldable pub is_digit : ℕ → Bool
is_digit c = leb b'0' c && leb c b'9'

-- `u32::from_str` and `u64::from_str` on a text of digits.
unfoldable pub digits_value : ℕ → Text → ℕ
digits_value acc [] = acc
digits_value acc (c ∷ cs) = digits_value (acc * 10 + (c - b'0')) cs

-- The `White_Space` characters of Unicode, which `str::trim` takes away.
unfoldable pub is_whitespace : ℕ → Bool
is_whitespace c =
    (leb 9 c && leb c 13)
    || c == 32
    || c == 0x85
    || c == 0xa0
    || c == 0x1680
    || (leb 0x2000 c && leb c 0x200a)
    || c == 0x2028
    || c == 0x2029
    || c == 0x202f
    || c == 0x205f
    || c == 0x3000

unfoldable pub trim_start : Text → Text
trim_start [] = []
trim_start (c ∷ cs) = if is_whitespace c then trim_start cs else c ∷ cs

-- Whitespace at the end: a character stays if one behind it stays or it is none itself.
unfoldable pub trim_end : Text → Text
trim_end [] = []
trim_end (c ∷ cs) = elim (trim_end cs) [
  | d ∷ ds ↦ c ∷ d ∷ ds
  | [] ↦ if is_whitespace c then [] else c ∷ []
]

unfoldable pub trim : Text → Text
unfolding trim_start trim_end
trim t = trim_end (trim_start t)

-- `str::trim_start_matches` with one character.
unfoldable pub strip_start : ℕ → Text → Text
strip_start sep [] = []
strip_start sep (c ∷ cs) = if c == sep then strip_start sep cs else c ∷ cs

unfoldable pub decimal_fuel : ℕ → ℕ → Text
decimal_fuel zero n = []
decimal_fuel (suc fuel) n = elim (ltb n 10) [
  | true ↦ (b'0' + n) ∷ []
  | false ↦ decimal_fuel fuel (n / 10) ++ (b'0' + n % 10) ∷ []
]

-- The decimal form that `format!` gives a number.
unfoldable pub decimal : ℕ → Text
unfolding decimal_fuel
decimal n = decimal_fuel (suc n) n
