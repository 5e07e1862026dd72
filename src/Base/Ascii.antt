-- ===== src/Base/Ascii.antt =====
-- Letter case of ASCII texts.
use Prim.Native.Nat.{ℕ, ◌+◌}
use mathlib.Core.Bool.{Bool, ◌&&◌}
use mathlib.Core.List.{map}
use ollamux.Base.Tests.{if◌then◌else◌, leb}
use ollamux.Base.Texts.{Text, text_eq}

unfoldable pub lower : ℕ → ℕ
lower c = if leb b'A' c && leb c b'Z' then c + 32 else c

-- `str::to_ascii_lowercase`.
unfoldable pub to_ascii_lowercase : Text → Text
unfolding lower
to_ascii_lowercase t = map lower t

-- `str::eq_ignore_ascii_case`.
unfoldable pub eq_ignore_ascii_case : Text → Text → Bool
unfolding to_ascii_lowercase text_eq
eq_ignore_ascii_case s t = text_eq (to_ascii_lowercase s) (to_ascii_lowercase t)
