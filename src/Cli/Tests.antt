-- ===== src/Cli/Tests.antt =====
-- src/main.rs: command lines, and the theorems at concrete inputs.
use ollamux.Base.{
  ◌≡◌, refl, true, false, none, some, List, [], ◌∷◌, codes, text_eq, split_once, is_whitespace,
  trim, starts_with, Text, arith, is_digit,
}
use ollamux.Config.{Entry, Environment, text_of}
use ollamux.Pool.{Pool}
use ollamux.Cli.{Config, Variables, parsed, error, parse_args, threshold_out_of_range, parse_loop}
use ollamux.Cli.Lines.{command_line, unset, parse_args-command_line}
use ollamux.Cli.Startup.{set_up}

abbrev pub arguments : List Text
arguments = codes "-k" ∷ codes "keys" ∷ codes "--usage-aware" ∷ codes "75" ∷ codes "-v" ∷ []

abbrev pub variables : Variables
variables = record { usage_aware = some (codes "20"); no_affinity = some (codes "1") }

abbrev pub config : Config
config = record {
  addr = codes "127.0.0.1:11435";
  keys_path = some (codes "keys");
  verbose = true;
  usage_aware = some 75;
  affinity = false;
}

-- A value after a bare flag that is not a number is the next argument.
bare_flag :
    (parse_args (codes "--usage-aware" ∷ codes "-v" ∷ []) unset
      ≡ parsed (record {
        addr = codes "127.0.0.1:11435";
        keys_path = none;
        verbose = true;
        usage_aware = some 80;
        affinity = true;
      }))
unfolding parse_args codes text_eq split_once starts_with trim parse_loop is_whitespace is_digit
bare_flag = refl

zero_refused : parse_args (codes "--usage-aware=0" ∷ []) unset ≡ error (threshold_out_of_range 0)
unfolding parse_args codes text_eq split_once starts_with trim parse_loop is_whitespace is_digit
zero_refused = refl

parse_args-command_line_example : parse_args (command_line config) unset ≡ parsed config
parse_args-command_line_example = parse_args-command_line config (omega arith, omega arith)

abbrev pub environment : Environment
environment = record {
  read_to_string = λ path. text_of (codes "key-a:2\nkey-b\n");
  ollamux_keys = none;
  xdg_config_home = none;
  home = none;
  join = λ a b. a;
}

abbrev pub entries : List Entry
entries = (codes "key-a", 2) ∷ (codes "key-b", 3) ∷ []

abbrev pub pool : Pool
pool = set_up config entries
