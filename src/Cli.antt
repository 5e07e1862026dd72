-- ===== src/Cli.antt =====
-- src/main.rs: the command line, `parse_args`, and what `main` makes of it. What the arguments are
-- is an argument, and so are the two environment variables (`none` is unset, or not Unicode).
pub mod Laws
pub mod Percents
pub mod Lines
pub mod Startup
pub mod Serving
pub mod Tests
use ollamux.Base.{
  is_some, is_empty, ℕ, ◌*◌, ◌^◌, Bool, true, false, not, ◌&&◌, ◌||◌, Option, none, some, List, [],
  ◌∷◌, ◌++◌, all, min, max, ltb, leb, ◌==◌, if◌then◌else◌, Text, codes, text_eq, starts_with,
  split_once, is_digit, digits_value, trim, is_whitespace,
}
use ollamux.Base.Digits.{parse_below}

abbrev pub default_addr : Text
default_addr = codes "127.0.0.1:11435"

abbrev pub waiter_cap : ℕ
waiter_cap = 32

abbrev pub default_usage_aware : ℕ
default_usage_aware = 80

pub record Config : Type 0 where
  pub addr : Text
  pub keys_path : Option Text
  pub verbose : Bool
  pub usage_aware : Option ℕ
  pub affinity : Bool

-- What is wrong with a command line; the texts of the messages are left out.
pub data UsageError : Type 0 where
  missing_value : Text → UsageError
  unknown_argument : Text → UsageError
  not_a_threshold : Text → UsageError
  threshold_out_of_range : ℕ → UsageError

pub data Parsed : Type 0 where
  error : UsageError → Parsed
  help version : Parsed
  parsed : Config → Parsed

-- Splits `--opt=value`.
unfoldable pub split_kv : Text → Text × Option Text
unfolding split_once starts_with
split_kv arg = elim (split_once b'=' arg) [
  | none ↦ (arg, none)
  | some (k, v) ↦ if starts_with k (codes "--") then (k, some v) else (arg, none)
]

-- `str::parse::<u32>`
unfoldable pub parse_u32 : Text → Option ℕ
unfolding parse_below
parse_u32 t = parse_below (2 ^ 32) t

-- `str::trim_end_matches` with one character.
unfoldable pub strip_end : ℕ → Text → Text
strip_end sep [] = []
strip_end sep (c ∷ cs) = elim (strip_end sep cs) [
  | d ∷ ds ↦ c ∷ d ∷ ds
  | [] ↦ if c == sep then [] else c ∷ []
]

pub data Percent : Type 0 where
  percent : ℕ → Percent
  bad : UsageError → Percent

unfoldable pub check_pct : ℕ → Percent
check_pct pct = if pct == 0 || ltb 99 pct then bad (threshold_out_of_range pct) else percent pct

unfoldable pub parse_pct : Text → Percent
unfolding check_pct parse_u32 strip_end trim
parse_pct s = elim (parse_u32 (strip_end b'%' (trim s))) [
  | none ↦ bad (not_a_threshold s)
  | some pct ↦ check_pct pct
]

-- What an argument waits for: nothing, the value of `--addr` or of `--keys` (the flag as written),
-- or a threshold, which may be left out.
pub data Pending : Type 0 where
  nothing : Pending
  addr_of keys_of : Text → Pending
  threshold : Pending

pub data Step : Type 0 where
  go : Pending → Config → Step
  stop : Parsed → Step

pub data Flag : Type 0 where
  help_flag version_flag addr_flag keys_flag verbose_flag no_affinity_flag usage_aware_flag
        other_flag :
      Flag

-- The arms of the `match flag`.
unfoldable pub flag_of : Text → Flag
unfolding text_eq
flag_of f =
    if text_eq f (codes "-h") || text_eq f (codes "--help")
    then help_flag
    else (if text_eq f (codes "-V") || text_eq f (codes "--version")
        then version_flag
        else (if text_eq f (codes "-a") || text_eq f (codes "--addr")
            then addr_flag
            else (if text_eq f (codes "-k") || text_eq f (codes "--keys")
                then keys_flag
                else (if text_eq f (codes "-v") || text_eq f (codes "--verbose")
                    then verbose_flag
                    else (if text_eq f (codes "--no-affinity")
                        then no_affinity_flag
                        else (if text_eq f (codes "--usage-aware")
                            then usage_aware_flag
                            else other_flag))))))

abbrev pub with_threshold : Percent → Config → Step
with_threshold (percent pct) cfg = go nothing (record cfg { usage_aware = some pct })
with_threshold (bad e) cfg = stop (error e)

-- What the arm of a flag does with the value behind `=`, if there is one.
unfoldable pub flag_action : Flag → Text → Text → Option Text → Config → Step
unfolding parse_pct
flag_action help_flag arg flag inline cfg = stop help
flag_action version_flag arg flag inline cfg = stop version
flag_action addr_flag arg flag (some v) cfg = go nothing (record cfg { addr = v })
flag_action addr_flag arg flag none cfg = go (addr_of flag) cfg
flag_action keys_flag arg flag (some v) cfg = go nothing (record cfg { keys_path = some v })
flag_action keys_flag arg flag none cfg = go (keys_of flag) cfg
flag_action verbose_flag arg flag inline cfg = go nothing (record cfg { verbose = true })
flag_action no_affinity_flag arg flag inline cfg = go nothing (record cfg { affinity = false })
flag_action usage_aware_flag arg flag (some v) cfg = with_threshold (parse_pct v) cfg
flag_action usage_aware_flag arg flag none cfg =
    go threshold (record cfg { usage_aware = some default_usage_aware })
flag_action other_flag arg flag inline cfg = stop (error (unknown_argument arg))

-- An argument that is looked at as a flag.
unfoldable pub flag_step : Text → Config → Step
unfolding split_kv flag_of flag_action
flag_step arg cfg = flag_action (flag_of (split_kv arg).0) arg (split_kv arg).0 (split_kv arg).1 cfg

-- An argument, after what the one before it waits for.
unfoldable pub arg_step : Pending → Text → Config → Step
unfolding flag_step parse_u32 parse_pct
arg_step nothing arg cfg = flag_step arg cfg
arg_step (addr_of flag) arg cfg = go nothing (record cfg { addr = arg })
arg_step (keys_of flag) arg cfg = go nothing (record cfg { keys_path = some arg })
arg_step threshold arg cfg =
    if is_some (parse_u32 arg) then with_threshold (parse_pct arg) cfg else flag_step arg cfg

-- The loop over the arguments. A missing threshold has its default already.
unfoldable pub parse_loop : List Text → Pending → Config → Parsed
unfolding arg_step
parse_loop [] nothing cfg = parsed cfg
parse_loop [] (addr_of flag) cfg = error (missing_value flag)
parse_loop [] (keys_of flag) cfg = error (missing_value flag)
parse_loop [] threshold cfg = parsed cfg
parse_loop (arg ∷ args) p cfg = elim (arg_step p arg cfg) [
  | go q cfg' ↦ parse_loop args q cfg'
  | stop r ↦ r
]

abbrev pub default_config : Config
default_config = record {
  addr = default_addr;
  keys_path = none;
  verbose = false;
  usage_aware = none;
  affinity = true;
}

pub record Variables : Type 0 where
  pub usage_aware : Option Text
  pub no_affinity : Option Text

-- `OLLAMUX_NO_AFFINITY` is set to something but `0` and `false`.
unfoldable pub disables : Option Text → Bool
unfolding text_eq
disables none = false
disables (some v) =
    not (is_empty v) && not (text_eq v (codes "0")) && not (text_eq v (codes "false"))

unfoldable pub apply_no_affinity : Variables → Config → Config
unfolding disables
apply_no_affinity env cfg =
    if disables env.no_affinity then record cfg { affinity = false } else cfg

abbrev pub variable_threshold : Percent → Config → Parsed
variable_threshold (percent pct) cfg = parsed (record cfg { usage_aware = some pct })
variable_threshold (bad e) cfg = error e

-- `OLLAMUX_USAGE_AWARE`, read only if no flag gave a threshold.
unfoldable pub apply_usage_aware : Option ℕ → Option Text → Config → Parsed
unfolding parse_pct
apply_usage_aware (some pct) variable cfg = parsed cfg
apply_usage_aware none none cfg = parsed cfg
apply_usage_aware none (some raw) cfg =
    if is_empty raw then parsed cfg else variable_threshold (parse_pct raw) cfg

abbrev pub then_no_affinity : Variables → Parsed → Parsed
then_no_affinity env (error e) = error e
then_no_affinity env help = help
then_no_affinity env version = version
then_no_affinity env (parsed cfg) = parsed (apply_no_affinity env cfg)

-- The variables after the loop.
unfoldable pub apply_variables : Variables → Config → Parsed
unfolding apply_no_affinity apply_usage_aware
apply_variables env cfg =
    then_no_affinity env (apply_usage_aware cfg.usage_aware env.usage_aware cfg)

abbrev pub then_variables : Variables → Parsed → Parsed
then_variables env (error e) = error e
then_variables env help = help
then_variables env version = version
then_variables env (parsed cfg) = apply_variables env cfg

unfoldable pub parse_args : List Text → Variables → Parsed
unfolding parse_loop apply_variables
parse_args args env = then_variables env (parse_loop args nothing default_config)
