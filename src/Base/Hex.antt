-- ===== src/Base/Hex.antt =====
-- The hexadecimal form of `format!("{n:x}")`, and its value.
use Prim.Native.Nat.{ℕ, zero, suc, ◌+◌, ◌-◌, ◌*◌, ◌/◌, ◌%◌, ◌<◌}
use mathlib.Core.Path.{◌≡◌, refl, sym, subst}
use mathlib.Core.Logic.{inl, inr}
use mathlib.Core.Bool.{Bool, true, false, not}
use mathlib.Core.List.{[], ◌∷◌, ◌++◌}
use native.Mathlib.Omega.{arith}
use ollamux.Base.Tests.{◌==◌, if◌then◌else◌, ltb, leb, Bool-cases}
use ollamux.Base.Lists.{all}
use ollamux.Base.Texts.{Text}

unfoldable pub hex_digit : ℕ → ℕ
hex_digit d = if ltb d 10 then b'0' + d else b'a' + (d - 10)

unfoldable hex_fuel : ℕ → ℕ → Text
unfolding hex_digit
hex_fuel zero n = []
hex_fuel (suc fuel) n = elim (ltb n 16) [
  | true ↦ hex_digit n ∷ []
  | false ↦ hex_fuel fuel (n / 16) ++ hex_digit (n % 16) ∷ []
]

unfoldable pub hex : ℕ → Text
unfolding hex_fuel
hex n = hex_fuel (suc n) n

-- The value of a digit in either case.
unfoldable pub hex_digit_value : ℕ → ℕ
hex_digit_value c =
    if leb b'a' c then c - b'a' + 10 else (if leb b'A' c then c - b'A' + 10 else c - b'0')

unfoldable pub hex_value : ℕ → Text → ℕ
unfolding hex_digit_value
hex_value acc [] = acc
hex_value acc (c ∷ cs) = hex_value (acc * 16 + hex_digit_value c) cs

-- No carriage return.
abbrev pub not_cr : ℕ → Bool
not_cr c = not (c == 13)

hex_value-append :
    (acc c : ℕ) (t : Text) → hex_value acc (t ++ c ∷ []) ≡ hex_value acc t * 16 + hex_digit_value c
unfolding hex_value
hex_value-append acc c [] = refl
hex_value-append acc c (d ∷ t) = hex_value-append (acc * 16 + hex_digit_value d) c t

hex_digit_value-hex_digit : (d : ℕ) → d < 16 → hex_digit_value (hex_digit d) ≡ d
unfolding hex_digit_value hex_digit
hex_digit_value-hex_digit d h = ground arith

hex_fuel-small : (fuel n : ℕ) → ltb n 16 ≡ true → hex_fuel (suc fuel) n ≡ hex_digit n ∷ []
unfolding hex_fuel
hex_fuel-small fuel n h = ground arith

hex_fuel-large :
    (fuel n : ℕ)
    → ltb n 16 ≡ false
    → hex_fuel (suc fuel) n ≡ hex_fuel fuel (n / 16) ++ hex_digit (n % 16) ∷ []
unfolding hex_fuel
hex_fuel-large fuel n h = ground arith

hex_value-one : (c : ℕ) → hex_value 0 (c ∷ []) ≡ hex_digit_value c
unfolding hex_value
hex_value-one c = omega arith

hex_fuel-value : (fuel n : ℕ) → n < fuel → hex_value 0 (hex_fuel fuel n) ≡ n
hex_fuel-value zero n h = absurd (omega arith)
hex_fuel-value (suc fuel) n h = elim (Bool-cases (ltb n 16)) [
  | inl small ↦
      rw (hex_fuel-small fuel n small, hex_value-one (hex_digit n))
        (hex_digit_value-hex_digit n (ground arith))
  | inr large ↦
      rw
        (
          hex_fuel-large fuel n large,
          hex_value-append 0 (hex_digit (n % 16)) (hex_fuel fuel (n / 16)),
        )
        (ground (
          arith,
          hex_fuel-value fuel (n / 16) (ground arith),
          hex_digit_value-hex_digit (n % 16) (omega arith),
        ))
]

-- A number is read back from its hexadecimal form.
pub hex_value-hex : (n : ℕ) → hex_value 0 (hex n) ≡ n
unfolding hex
hex_value-hex n = hex_fuel-value (suc n) n (omega arith)

hex_digit-not_cr : (d : ℕ) → all not_cr (hex_digit d ∷ []) ≡ true
unfolding hex_digit
hex_digit-not_cr d = ground arith

all_append : (p : ℕ → Bool) (s t : Text) → all p s ≡ true → all p t ≡ true → all p (s ++ t) ≡ true
all_append p [] t h k = k
all_append p (c ∷ s) t h k = ground (arith, all_append p s t)

hex_fuel-not_cr : (fuel n : ℕ) → all not_cr (hex_fuel fuel n) ≡ true
unfolding hex_fuel
hex_fuel-not_cr zero n = refl
hex_fuel-not_cr (suc fuel) n = elim (Bool-cases (ltb n 16)) [
  | inl small ↦
      subst (λ t. all not_cr t ≡ true) (sym (hex_fuel-small fuel n small)) (hex_digit-not_cr n)
  | inr large ↦
      subst (λ t. all not_cr t ≡ true) (sym (hex_fuel-large fuel n large))
        (all_append not_cr (hex_fuel fuel (n / 16)) (hex_digit (n % 16) ∷ [])
          (hex_fuel-not_cr fuel (n / 16)) (hex_digit-not_cr (n % 16)))
]

pub hex-not_cr : (n : ℕ) → all not_cr (hex n) ≡ true
unfolding hex
hex-not_cr n = hex_fuel-not_cr (suc n) n
