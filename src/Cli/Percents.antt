-- ===== src/Cli/Percents.antt =====
-- src/main.rs: `parse_pct` on a number in its decimal form.
use ollamux.Base.{
  ℕ, ◌≤◌, ◌<◌, ◌≡◌, refl, ◌∙◌, true, false, some, [], ◌∷◌, Text, arith, all, ◌==◌, decimal, trim,
  is_digit, ◌^◌,
}
use ollamux.Base.Digits.{all-decimal, head-all, tail-all, trim-decimal, parse_below-decimal}
use ollamux.Cli.{percent, parse_pct, check_pct, strip_end, parse_u32}

percent_sign-digit : (c : ℕ) → is_digit c ≡ true → (c == b'%') ≡ false
unfolding is_digit
percent_sign-digit c h = ground arith

strip_end-digits : (t : Text) → all is_digit t ≡ true → strip_end b'%' t ≡ t
unfolding strip_end
strip_end-digits [] h = refl
strip_end-digits (c ∷ []) h = rw (percent_sign-digit c (head-all is_digit c [] h)) refl
strip_end-digits (c ∷ d ∷ t) h = rw (strip_end-digits (d ∷ t) (tail-all is_digit c (d ∷ t) h)) refl

parse_u32-decimal : (n : ℕ) → n < 2 ^ 32 → parse_u32 (strip_end b'%' (trim (decimal n))) ≡ some n
unfolding parse_u32
parse_u32-decimal n u =
    rw (trim-decimal n, strip_end-digits (decimal n) (all-decimal n))
      (parse_below-decimal (2 ^ 32) n u)

parse_pct-some :
    (s : Text) (pct : ℕ)
    → parse_u32 (strip_end b'%' (trim s)) ≡ some pct
    → parse_pct s ≡ check_pct pct
unfolding parse_pct
parse_pct-some s pct e = rw (e, parse_pct) refl

check_pct-percent : (pct : ℕ) → 1 ≤ pct → pct ≤ 99 → check_pct pct ≡ percent pct
unfolding check_pct
check_pct-percent pct l u = ground arith

-- A percentage from 1 to 99 is read back from its decimal form.
pub parse_pct-decimal : (pct : ℕ) → 1 ≤ pct → pct ≤ 99 → parse_pct (decimal pct) ≡ percent pct
parse_pct-decimal pct l u =
    parse_pct-some (decimal pct) pct (parse_u32-decimal pct (omega arith))
    ∙ check_pct-percent pct l u
