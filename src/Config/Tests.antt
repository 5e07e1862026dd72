-- ===== src/Config/Tests.antt =====
-- src/config.rs: texts that parse and that do not, and the theorems at concrete inputs.
use ollamux.Base.{
  is_empty, ◌≡◌, refl, false, none, some, List, [], ◌∷◌, codes, text_eq, rsplit_once, is_whitespace,
  trim, starts_with, Text, arith,
}
use ollamux.Config.{Entry, ok, parse, Environment, text_of, load}
use ollamux.Config.Laws.{IsValid, load-IsValid}

abbrev file : Text
file = codes "# keys\n key-a:3 \nkey-b\n"

abbrev two_entries : List Entry
two_entries = (codes "key-a", 3) ∷ (codes "key-b", 3) ∷ []

file-parse : parse file ≡ ok two_entries
unfolding codes text_eq parse trim rsplit_once is_whitespace starts_with
file-parse = refl

abbrev environment : Environment
environment = record {
  read_to_string = λ path. text_of file;
  ollamux_keys = none;
  xdg_config_home = none;
  home = some (codes "/home/me");
  join = λ a b. a;
}

abbrev keys_path : Text
keys_path = codes "keys"

load-IsValid_example : IsValid two_entries × (is_empty two_entries ≡ false)
unfolding load codes text_eq parse trim rsplit_once is_whitespace starts_with
load-IsValid_example = load-IsValid environment (some keys_path) two_entries refl

-- A key that stands twice is refused.
twice : parse (codes "k:1\nk:2") ≡ ok two_entries → ⊥
unfolding codes text_eq parse trim rsplit_once is_whitespace starts_with
twice e = ground arith
