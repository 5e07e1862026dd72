-- ===== src/Base/Digits.antt =====
-- Numbers in text: the decimal and hexadecimal forms of `format!`, and what reads them back.
use Prim.Native.Nat.{ℕ, zero, suc, ◌+◌, ◌-◌, ◌*◌, ◌/◌, ◌%◌, ◌<◌}
use mathlib.Core.Path.{◌≡◌, refl, sym, ap, subst, ◌∙◌}
use mathlib.Core.Logic.{inl, inr}
use mathlib.Core.Bool.{Bool, true, false, not, ◌&&◌}
use mathlib.Core.Option.{Option, none, some}
use mathlib.Core.List.{[], ◌∷◌, ◌++◌}
use native.Mathlib.Omega.{arith}
use ollamux.Base.Tests.{ltb, ◌==◌, if◌then◌else◌, Bool-cases}
use ollamux.Base.Lists.{is_empty, all}
use ollamux.Base.Texts.{
  Text, is_digit, digits_value, decimal, decimal_fuel, is_whitespace, trim, trim_start, trim_end,
}

digits_value-append :
    (acc c : ℕ) (t : Text) → digits_value acc (t ++ c ∷ []) ≡ digits_value acc t * 10 + (c - b'0')
unfolding digits_value
digits_value-append acc c [] = refl
digits_value-append acc c (d ∷ t) = digits_value-append (acc * 10 + (d - b'0')) c t

decimal_fuel-small : (fuel n : ℕ) → ltb n 10 ≡ true → decimal_fuel (suc fuel) n ≡ (b'0' + n) ∷ []
unfolding decimal_fuel
decimal_fuel-small fuel n h = ground arith

decimal_fuel-large :
    (fuel n : ℕ)
    → ltb n 10 ≡ false
    → decimal_fuel (suc fuel) n ≡ decimal_fuel fuel (n / 10) ++ (b'0' + n % 10) ∷ []
unfolding decimal_fuel
decimal_fuel-large fuel n h = ground arith

digits_value-one : (c : ℕ) → digits_value 0 (c ∷ []) ≡ c - b'0'
unfolding digits_value
digits_value-one c = omega arith

decimal_fuel-value : (fuel n : ℕ) → n < fuel → digits_value 0 (decimal_fuel fuel n) ≡ n
decimal_fuel-value zero n h = absurd (omega arith)
decimal_fuel-value (suc fuel) n h = elim (Bool-cases (ltb n 10)) [
  | inl small ↦ rw (decimal_fuel-small fuel n small, digits_value-one (b'0' + n)) (omega arith)
  | inr large ↦
      rw
        (
          decimal_fuel-large fuel n large,
          digits_value-append 0 (b'0' + n % 10) (decimal_fuel fuel (n / 10)),
        )
        (ground (arith, decimal_fuel-value fuel (n / 10) (ground arith)))
]

-- A number is read back from its decimal form.
pub digits_value-decimal : (n : ℕ) → digits_value 0 (decimal n) ≡ n
unfolding decimal
digits_value-decimal n = decimal_fuel-value (suc n) n (omega arith)

all-append : (p : ℕ → Bool) (s t : Text) → all p s ≡ true → all p t ≡ true → all p (s ++ t) ≡ true
all-append p [] t h k = k
all-append p (c ∷ s) t h k = ground (arith, all-append p s t)

is_digit-digit : (n : ℕ) → ltb n 10 ≡ true → all is_digit ((b'0' + n) ∷ []) ≡ true
unfolding is_digit
is_digit-digit n h = ground arith

rest-digit : (n : ℕ) → ltb (n % 10) 10 ≡ true
rest-digit n = ground arith

decimal_fuel-digits : (fuel n : ℕ) → all is_digit (decimal_fuel fuel n) ≡ true
unfolding decimal_fuel
decimal_fuel-digits zero n = refl
decimal_fuel-digits (suc fuel) n = elim (Bool-cases (ltb n 10)) [
  | inl small ↦
      subst (λ t. all is_digit t ≡ true) (sym (decimal_fuel-small fuel n small))
        (is_digit-digit n small)
  | inr large ↦
      subst (λ t. all is_digit t ≡ true) (sym (decimal_fuel-large fuel n large))
        (all-append is_digit (decimal_fuel fuel (n / 10)) _ (decimal_fuel-digits fuel (n / 10))
          (is_digit-digit (n % 10) (rest-digit n)))
]

pub all-decimal : (n : ℕ) → all is_digit (decimal n) ≡ true
unfolding decimal
all-decimal n = decimal_fuel-digits (suc n) n

append-nonempty : (s : Text) (c : ℕ) → ¬ (s ++ c ∷ [] ≡ [])
append-nonempty [] c e = cc
append-nonempty (d ∷ s) c e = cc

pub decimal-nonempty : (n : ℕ) → ¬ (decimal n ≡ [])
unfolding decimal
decimal-nonempty n e = elim (Bool-cases (ltb n 10)) [
  | inl small ↦ absurd (append-nonempty [] (b'0' + n) (sym (decimal_fuel-small n n small) ∙ e))
  | inr large ↦ absurd (
      append-nonempty (decimal_fuel n (n / 10)) (b'0' + n % 10)
        (sym (decimal_fuel-large n n large) ∙ e))
]

-- `str::parse` to an unsigned integer below the bound, on the text behind an optional plus sign.
unfoldable pub digits_below : ℕ → Text → Option ℕ
unfolding digits_value is_digit
digits_below bound t =
    if not (is_empty t) && all is_digit t && ltb (digits_value 0 t) bound
    then some (digits_value 0 t)
    else none

-- `str::parse` to an unsigned integer below the bound.
unfoldable pub parse_below : ℕ → Text → Option ℕ
unfolding digits_below
parse_below bound [] = none
parse_below bound (c ∷ cs) =
    if c == b'+' then digits_below bound cs else digits_below bound (c ∷ cs)

is_whitespace-digit : (c : ℕ) → is_digit c ≡ true → is_whitespace c ≡ false
unfolding is_digit is_whitespace
is_whitespace-digit c h = ground arith

plus_sign-digit : (c : ℕ) → is_digit c ≡ true → (c == b'+') ≡ false
unfolding is_digit
plus_sign-digit c h = ground arith

pub head-all : (p : ℕ → Bool) (c : ℕ) (t : Text) → all p (c ∷ t) ≡ true → p c ≡ true
head-all p c t h = ground arith

pub tail-all : (p : ℕ → Bool) (c : ℕ) (t : Text) → all p (c ∷ t) ≡ true → all p t ≡ true
tail-all p c t h = ground arith

trim_start-digits : (t : Text) → all is_digit t ≡ true → trim_start t ≡ t
unfolding trim_start
trim_start-digits [] h = refl
trim_start-digits (c ∷ t) h = rw (is_whitespace-digit c (head-all is_digit c t h)) refl

trim_end-digits : (t : Text) → all is_digit t ≡ true → trim_end t ≡ t
unfolding trim_end
trim_end-digits [] h = refl
trim_end-digits (c ∷ []) h = rw (is_whitespace-digit c (head-all is_digit c [] h)) refl
trim_end-digits (c ∷ d ∷ t) h = rw (trim_end-digits (d ∷ t) (tail-all is_digit c (d ∷ t) h)) refl

trim-digits : (t : Text) → all is_digit t ≡ true → trim t ≡ t
unfolding trim
trim-digits t h = rw (trim_start-digits t h) (trim_end-digits t h)

pub trim-decimal : (n : ℕ) → trim (decimal n) ≡ decimal n
trim-decimal n = trim-digits (decimal n) (all-decimal n)

parse_below-digits :
    (bound : ℕ) (t : Text)
    → all is_digit t ≡ true
    → is_empty t ≡ false
    → digits_value 0 t < bound
    → parse_below bound t ≡ some (digits_value 0 t)
unfolding parse_below digits_below
parse_below-digits bound [] h n u = cc
parse_below-digits bound (c ∷ t) h n u =
    rw (plus_sign-digit c (head-all is_digit c t h), h) (ground arith)

is_empty-false : (t : Text) → ¬ (t ≡ []) → is_empty t ≡ false
is_empty-false [] n = absurd (n refl)
is_empty-false (c ∷ t) n = refl

-- A number below the bound is parsed from its decimal form.
pub parse_below-decimal : (bound n : ℕ) → n < bound → parse_below bound (decimal n) ≡ some n
parse_below-decimal bound n u =
    parse_below-digits bound (decimal n) (all-decimal n)
      (is_empty-false (decimal n) (decimal-nonempty n))
      (subst (λ k. k < bound) (sym (digits_value-decimal n)) u)
    ∙ ap (λ k. some k) (digits_value-decimal n)
