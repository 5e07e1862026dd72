-- ===== src/Cli/Lines.antt =====
-- src/main.rs: every configuration can be written as a command line.
use ollamux.Base.{
  ℕ, ◌≡◌, refl, ap, ◌∙◌, Bool, true, false, Option, none, some, List, [], ◌∷◌, ◌++◌, Text, codes,
  text_eq, starts_with, split_once, decimal,
}
use ollamux.Cli.{
  Config, parsed, parse_pct, nothing, go, with_threshold, flag_step, arg_step, parse_loop,
  default_config, Variables, disables, apply_no_affinity, apply_usage_aware, apply_variables,
  parse_args,
}
use ollamux.Cli.Laws.{IsValid, IsThreshold}
use ollamux.Cli.Percents.{parse_pct-decimal}

abbrev keys_args : Option Text → List Text
keys_args none = []
keys_args (some path) = (codes "--keys=" ++ path) ∷ []

abbrev verbose_args : Bool → List Text
verbose_args true = codes "--verbose" ∷ []
verbose_args false = []

abbrev usage_aware_args : Option ℕ → List Text
usage_aware_args none = []
usage_aware_args (some pct) = (codes "--usage-aware=" ++ decimal pct) ∷ []

abbrev affinity_args : Bool → List Text
affinity_args true = []
affinity_args false = codes "--no-affinity" ∷ []

-- A command line for a configuration.
abbrev pub command_line : Config → List Text
command_line cfg =
    (codes "--addr=" ++ cfg.addr)
    ∷ (keys_args cfg.keys_path
        ++ (verbose_args cfg.verbose
            ++ (usage_aware_args cfg.usage_aware ++ affinity_args cfg.affinity)))

flag_step-addr :
    (v : Text) (cfg : Config)
    → flag_step (codes "--addr=" ++ v) cfg ≡ go nothing (record cfg { addr = v })
unfolding flag_step codes split_once starts_with text_eq
flag_step-addr v cfg = refl

flag_step-keys :
    (v : Text) (cfg : Config)
    → flag_step (codes "--keys=" ++ v) cfg ≡ go nothing (record cfg { keys_path = some v })
unfolding flag_step codes split_once starts_with text_eq
flag_step-keys v cfg = refl

flag_step-verbose :
    (cfg : Config) → flag_step (codes "--verbose") cfg ≡ go nothing (record cfg { verbose = true })
unfolding flag_step codes split_once starts_with text_eq
flag_step-verbose cfg = refl

flag_step-no_affinity :
    (cfg : Config)
    → flag_step (codes "--no-affinity") cfg ≡ go nothing (record cfg { affinity = false })
unfolding flag_step codes split_once starts_with text_eq
flag_step-no_affinity cfg = refl

flag_step-usage_aware :
    (v : Text) (cfg : Config)
    → flag_step (codes "--usage-aware=" ++ v) cfg ≡ with_threshold (parse_pct v) cfg
unfolding flag_step codes split_once starts_with text_eq
flag_step-usage_aware v cfg = refl

abbrev pub unset : Variables
unset = record { usage_aware = none; no_affinity = none }

parse_loop-go :
    (arg : Text) (args : List Text) (cfg cfg' : Config)
    → flag_step arg cfg ≡ go nothing cfg'
    → parse_loop (arg ∷ args) nothing cfg ≡ parse_loop args nothing cfg'
unfolding parse_loop arg_step
parse_loop-go arg args cfg cfg' e = rw (e, parse_loop) refl

parse_loop-affinity :
    (b : Bool) (cfg : Config)
    → cfg.affinity ≡ true
    → parse_loop (affinity_args b) nothing cfg ≡ parsed (record cfg { affinity = b })
unfolding parse_loop
parse_loop-affinity true cfg e = ap (λ b. parsed (record cfg { affinity = b })) e
parse_loop-affinity false cfg e =
    parse_loop-go (codes "--no-affinity") [] cfg _ (flag_step-no_affinity cfg)

parse_loop-usage_aware :
    (o : Option ℕ) (rest : List Text) (cfg : Config)
    → IsThreshold o
    → cfg.usage_aware ≡ none
    → parse_loop (usage_aware_args o ++ rest) nothing cfg
      ≡ parse_loop rest nothing (record cfg { usage_aware = o })
parse_loop-usage_aware none rest cfg h e =
    ap (λ o. parse_loop rest nothing (record cfg { usage_aware = o })) e
parse_loop-usage_aware (some pct) rest cfg (l, u) e =
    parse_loop-go (codes "--usage-aware=" ++ decimal pct) rest cfg
      (record cfg { usage_aware = some pct })
      (flag_step-usage_aware (decimal pct) cfg
        ∙ ap (λ p. with_threshold p cfg) (parse_pct-decimal pct l u))

parse_loop-verbose :
    (b : Bool) (rest : List Text) (cfg : Config)
    → cfg.verbose ≡ false
    → parse_loop (verbose_args b ++ rest) nothing cfg
      ≡ parse_loop rest nothing (record cfg { verbose = b })
parse_loop-verbose true rest cfg e =
    parse_loop-go (codes "--verbose") rest cfg _ (flag_step-verbose cfg)
parse_loop-verbose false rest cfg e =
    ap (λ b. parse_loop rest nothing (record cfg { verbose = b })) e

parse_loop-keys :
    (o : Option Text) (rest : List Text) (cfg : Config)
    → cfg.keys_path ≡ none
    → parse_loop (keys_args o ++ rest) nothing cfg
      ≡ parse_loop rest nothing (record cfg { keys_path = o })
parse_loop-keys none rest cfg e = ap (λ o. parse_loop rest nothing (record cfg { keys_path = o })) e
parse_loop-keys (some path) rest cfg e =
    parse_loop-go (codes "--keys=" ++ path) rest cfg _ (flag_step-keys path cfg)

parse_loop-command_line :
    (cfg : Config) → IsValid cfg → parse_loop (command_line cfg) nothing default_config ≡ parsed cfg
parse_loop-command_line cfg v =
    parse_loop-go (codes "--addr=" ++ cfg.addr) _ default_config _
      (flag_step-addr cfg.addr default_config)
    ∙ parse_loop-keys cfg.keys_path _ _ refl
    ∙ parse_loop-verbose cfg.verbose _ _ refl
    ∙ parse_loop-usage_aware cfg.usage_aware _ _ v refl
    ∙ parse_loop-affinity cfg.affinity _ refl

apply_usage_aware-unset : (o : Option ℕ) (cfg : Config) → apply_usage_aware o none cfg ≡ parsed cfg
unfolding apply_usage_aware
apply_usage_aware-unset none cfg = refl
apply_usage_aware-unset (some pct) cfg = refl

apply_variables-unset : (cfg : Config) → apply_variables unset cfg ≡ parsed cfg
unfolding apply_variables apply_no_affinity disables
apply_variables-unset cfg = rw (apply_usage_aware-unset cfg.usage_aware cfg) refl

-- Every configuration whose threshold is from 1 to 99 can be asked for: with no variable set, the
-- command line `command_line cfg`, which writes each value behind its flag, is parsed as `cfg`.
pub parse_args-command_line :
    (cfg : Config) → IsValid cfg → parse_args (command_line cfg) unset ≡ parsed cfg
unfolding parse_args
parse_args-command_line cfg v = rw (parse_loop-command_line cfg v) (apply_variables-unset cfg)
