-- ===== src/Config.antt =====
-- src/config.rs: the keys file. A text is the list of its code points; the file system and the
-- environment are arguments. The warning about a file that others can read is left out.
pub mod Laws
mod Tests
use ollamux.Base.{
  is_empty, ℕ, ◌-◌, ◌^◌, ◌≤◌, Bool, true, false, not, ◌&&◌, ◌||◌, Option, none, some, List, [], ◌∷◌,
  ◌++◌, map, max, length, any, all, ltb, ◌==◌, if◌then◌else◌, Text, codes, text_eq, starts_with,
  split, rsplit_once, is_digit, digits_value, trim,
}
use ollamux.Pool.{suffix}

abbrev pub default_concurrency : ℕ
default_concurrency = 3

pub data ParseError : Type 0 where
  not_found : Text → ParseError
  bad_line : Text → ParseError
  bad_concurrency : Text → Text → ParseError
  empty : Text → ParseError
  io : Text → ParseError

pub data Parsed (A : Type 0) : Type 0 where
  ok : A → Parsed A
  err : ParseError → Parsed A

infixl 5 ◌>>=◌
abbrev pub ◌>>=◌ : {A B : Type 0} → Parsed A → (A → Parsed B) → Parsed B
ok a >>= f = f a
err e >>= f = err e

abbrev pub Entry : Type 0
Entry = Text × ℕ

unfoldable pub drop_cr : Text → Text
drop_cr [] = []
drop_cr (c ∷ []) = if c == b'\r' then [] else c ∷ []
drop_cr (c ∷ d ∷ cs) = c ∷ drop_cr (d ∷ cs)

-- Every part but the last was ended by a line feed, with a carriage return before it or not; an
-- empty last part is no line.
unfoldable pub end_lines : List Text → List Text
unfolding drop_cr
end_lines [] = []
end_lines (l ∷ []) = if is_empty l then [] else l ∷ []
end_lines (l ∷ l' ∷ ls) = drop_cr l ∷ end_lines (l' ∷ ls)

-- `str::lines`.
unfoldable pub lines : Text → List Text
unfolding split end_lines
lines text = end_lines (split b'\n' text)

-- `n.parse::<u32>()` on a text of digits.
unfoldable pub parse_u32 : Text → Option ℕ
unfolding digits_value
parse_u32 n = if ltb (digits_value 0 n) (2 ^ 32) then some (digits_value 0 n) else none

-- The key and the concurrency of a trimmed line.
unfoldable pub parse_tail : Text → Text → Text → Parsed Entry
unfolding parse_u32 is_digit
parse_tail line k n =
    if not (is_empty k) && (not (is_empty n) && all is_digit n)
    then (elim (parse_u32 n) [
      | some c ↦ ok (trim k, max c 1)
      | none ↦ err (bad_concurrency line n)
    ])
    else ok (line, default_concurrency)

unfoldable pub parse_line : Text → Parsed Entry
unfolding parse_tail rsplit_once
parse_line line = elim (rsplit_once b':' line) [
  | some (k, n) ↦ parse_tail line k n
  | none ↦ ok (line, default_concurrency)
]

unfoldable pub is_skipped : Text → Bool
is_skipped line = is_empty line || starts_with line (codes "#")

unfoldable pub has_key : Text → List Entry → Bool
has_key key entries = any (λ e. text_eq e.0 key) entries

unfoldable pub add_entry : List Entry → Entry → Parsed (List Entry)
unfolding has_key suffix
add_entry entries e =
    if has_key e.0 entries
    then err (bad_line (codes "duplicate key entry: …" ++ suffix e.0))
    else ok (entries ++ e ∷ [])

-- One line of the loop, on the entries so far.
unfoldable pub parse_step : Text → List Entry → Parsed (List Entry)
unfolding is_skipped parse_line add_entry trim
parse_step line entries =
    if is_skipped (trim line)
    then ok entries
    else (parse_line (trim line) >>= λ e. add_entry entries e)

unfoldable pub parse_lines : List Text → List Entry → Parsed (List Entry)
unfolding parse_step
parse_lines [] entries = ok entries
parse_lines (l ∷ ls) entries = parse_step l entries >>= λ es. parse_lines ls es

-- `Keys::parse`.
unfoldable pub parse : Text → Parsed (List Entry)
unfolding parse_lines lines
parse text = parse_lines (lines text) []

unfoldable pub require_nonempty : List Entry → Text → Parsed (List Entry)
require_nonempty entries msg = if is_empty entries then err (empty msg) else ok entries

-- What the file system answers for a path; `join` is `PathBuf::join`.
pub data FileRead : Type 0 where
  text_of : Text → FileRead
  missing : Text → FileRead
  unreadable : Text → FileRead

pub record Environment : Type 0 where
  pub read_to_string : Text → FileRead
  pub ollamux_keys : Option Text
  pub xdg_config_home : Option Text
  pub home : Option Text
  pub join : Text → Text → Text

unfoldable pub home_path : Environment → Parsed Text
home_path env = elim env.home [
  | none ↦ err (empty (codes "HOME not set and OLLAMUX_KEYS unset; cannot locate keys"))
  | some home ↦ ok (env.join home (codes ".config/ollamux/keys"))
]

unfoldable pub config_path : Environment → Parsed Text
unfolding home_path
config_path env = elim env.xdg_config_home [
  | none ↦ home_path env
  | some xdg ↦ if is_empty xdg then home_path env else ok (env.join xdg (codes "ollamux/keys"))
]

abbrev pub no_keys_in : Text → Text
no_keys_in path = codes "keys file " ++ (path ++ codes " has no keys")

unfoldable pub parse_file : Text → Text → Parsed (List Entry)
unfolding parse require_nonempty
parse_file path text = parse text >>= λ entries. require_nonempty entries (no_keys_in path)

unfoldable pub from_path : Environment → Text → Parsed (List Entry)
unfolding parse_file
from_path env path = elim (env.read_to_string path) [
  | text_of text ↦ parse_file path text
  | missing e ↦ err (io e)
  | unreadable e ↦ err (io e)
]

-- The default path, where a missing file is an error of its own.
unfoldable pub from_default : Environment → Parsed (List Entry)
unfolding parse_file config_path
from_default env = config_path env >>= λ path. elim (env.read_to_string path) [
  | text_of text ↦ parse_file path text
  | missing e ↦ err (not_found path)
  | unreadable e ↦ err (io e)
]

unfoldable pub from_env : Text → Parsed (List Entry)
unfolding parse require_nonempty
from_env raw =
    parse raw >>= λ entries. require_nonempty entries (codes "OLLAMUX_KEYS is set but empty")

-- `Keys::load`: an explicit path, else the variable, else the default path.
unfoldable pub load : Environment → Option Text → Parsed (List Entry)
unfolding from_path from_env from_default
load env (some path) = from_path env path
load env none = elim env.ollamux_keys [ some raw ↦ from_env raw | none ↦ from_default env ]
