-- ===== src/Cli/Laws.antt =====
-- src/main.rs: what a command line that is accepted is known to give.
use ollamux.Base.{
  is_some, is_empty, ℕ, ◌≤◌, ◌≡◌, sym, Option, none, some, List, [], ◌∷◌, Text, arith, trim,
  Bool-cases, inl, inr, ◌==◌, ltb, ◌||◌, subst,
}
use ollamux.Cli.{
  Config, Parsed, error, help, version, parsed, strip_end, not_a_threshold, Percent, percent, bad,
  flag_action, check_pct, parse_pct, Pending, nothing, addr_of, keys_of, threshold, Step, go, stop,
  Flag, help_flag, version_flag, addr_flag, keys_flag, verbose_flag, no_affinity_flag,
  usage_aware_flag, other_flag, flag_of, split_kv, with_threshold, parse_u32, arg_step, parse_loop,
  default_config, Variables, apply_no_affinity, apply_variables, then_variables, variable_threshold,
  apply_usage_aware, then_no_affinity, parse_args,
}

-- A threshold, if there is one, is from 1 to 99.
abbrev pub IsThreshold : Option ℕ → Type 0
IsThreshold none = Unit {0}
IsThreshold (some pct) = (1 ≤ pct) × (pct ≤ 99)

abbrev pub IsValid : Config → Type 0
IsValid cfg = IsThreshold cfg.usage_aware

abbrev IsPercent : Percent → Type 0
IsPercent (percent pct) = (1 ≤ pct) × (pct ≤ 99)
IsPercent (bad e) = Unit {0}

check_pct-IsPercent : (pct : ℕ) → IsPercent (check_pct pct)
unfolding check_pct
check_pct-IsPercent pct = elim (Bool-cases (pct == 0 || ltb 99 pct)) [
  | inl out ↦ rw out tt
  | inr inside ↦ rw inside (ground arith)
]

parse_pct-IsPercent : (s : Text) → IsPercent (parse_pct s)
unfolding parse_pct
parse_pct-IsPercent s =
    elim (parse_u32 (strip_end b'%' (trim s)))
      as (λ o. IsPercent (elim o [ none ↦ bad (not_a_threshold s) | some pct ↦ check_pct pct ])) [
        | none ↦ tt
        | some pct ↦ check_pct-IsPercent pct
      ]

abbrev IsValidStep : Step → Type 0
IsValidStep (go p cfg) = IsValid cfg
IsValidStep (stop (parsed cfg)) = IsValid cfg
IsValidStep (stop (error e)) = Unit {0}
IsValidStep (stop help) = Unit {0}
IsValidStep (stop version) = Unit {0}

with_threshold-IsValidStep :
    (p : Percent) (cfg : Config) → IsPercent p → IsValidStep (with_threshold p cfg)
with_threshold-IsValidStep (percent pct) cfg h = h
with_threshold-IsValidStep (bad e) cfg h = tt

flag_action-IsValidStep :
    (f : Flag) (arg flag : Text) (inline : Option Text) (cfg : Config)
    → IsValid cfg
    → IsValidStep (flag_action f arg flag inline cfg)
unfolding flag_action
flag_action-IsValidStep help_flag arg flag inline cfg v = tt
flag_action-IsValidStep version_flag arg flag inline cfg v = tt
flag_action-IsValidStep addr_flag arg flag (some x) cfg v = v
flag_action-IsValidStep addr_flag arg flag none cfg v = v
flag_action-IsValidStep keys_flag arg flag (some x) cfg v = v
flag_action-IsValidStep keys_flag arg flag none cfg v = v
flag_action-IsValidStep verbose_flag arg flag inline cfg v = v
flag_action-IsValidStep no_affinity_flag arg flag inline cfg v = v
flag_action-IsValidStep usage_aware_flag arg flag (some x) cfg v =
    with_threshold-IsValidStep (parse_pct x) cfg (parse_pct-IsPercent x)
flag_action-IsValidStep usage_aware_flag arg flag none cfg v = (omega arith, omega arith)
flag_action-IsValidStep other_flag arg flag inline cfg v = tt

arg_step-IsValidStep :
    (p : Pending) (arg : Text) (cfg : Config) → IsValid cfg → IsValidStep (arg_step p arg cfg)
unfolding arg_step
arg_step-IsValidStep nothing arg cfg v =
    flag_action-IsValidStep (flag_of (split_kv arg).0) arg _ _ cfg v
arg_step-IsValidStep (addr_of flag) arg cfg v = v
arg_step-IsValidStep (keys_of flag) arg cfg v = v
arg_step-IsValidStep threshold arg cfg v = elim (Bool-cases (is_some (parse_u32 arg))) [
  | inl e ↦ rw e (with_threshold-IsValidStep (parse_pct arg) cfg (parse_pct-IsPercent arg))
  | inr e ↦ rw e (flag_action-IsValidStep (flag_of (split_kv arg).0) arg _ _ cfg v)
]

abbrev IsValidParsed : Parsed → Type 0
IsValidParsed r = IsValidStep (stop r)

parse_loop-IsValidParsed :
    (args : List Text) (p : Pending) (cfg : Config)
    → IsValid cfg
    → IsValidParsed (parse_loop args p cfg)
unfolding parse_loop
parse_loop-IsValidParsed [] nothing cfg v = v
parse_loop-IsValidParsed [] (addr_of flag) cfg v = tt
parse_loop-IsValidParsed [] (keys_of flag) cfg v = tt
parse_loop-IsValidParsed [] threshold cfg v = v
parse_loop-IsValidParsed (arg ∷ args) p cfg v =
    continue (arg_step p arg cfg) (arg_step-IsValidStep p arg cfg v)
      (λ q c w. parse_loop-IsValidParsed args q c w)
  where
    continue :
        (s : Step)
        → IsValidStep s
        → ((q : Pending) (c : Config) → IsValid c → IsValidParsed (parse_loop args q c))
        → IsValidParsed (elim s [ go q c ↦ parse_loop args q c | stop r ↦ r ])
    continue (go q c) w more = more q c w
    continue (stop r) w more = w

apply_no_affinity-usage_aware :
    (env : Variables) (cfg : Config) → (apply_no_affinity env cfg).usage_aware ≡ cfg.usage_aware
unfolding apply_no_affinity
apply_no_affinity-usage_aware env cfg = ground arith

variable_threshold-IsValidParsed :
    (p : Percent) (cfg : Config) → IsPercent p → IsValidParsed (variable_threshold p cfg)
variable_threshold-IsValidParsed (percent pct) cfg w = w
variable_threshold-IsValidParsed (bad e) cfg w = tt

apply_usage_aware-IsValidParsed :
    (o : Option ℕ) (variable : Option Text) (cfg : Config)
    → IsValid cfg
    → IsValidParsed (apply_usage_aware o variable cfg)
unfolding apply_usage_aware
apply_usage_aware-IsValidParsed (some pct) variable cfg v = v
apply_usage_aware-IsValidParsed none none cfg v = v
apply_usage_aware-IsValidParsed none (some raw) cfg v = elim (Bool-cases (is_empty raw)) [
  | inl e ↦ rw e v
  | inr e ↦ rw e (variable_threshold-IsValidParsed (parse_pct raw) cfg (parse_pct-IsPercent raw))
]

then_no_affinity-IsValidParsed :
    (env : Variables) (r : Parsed) → IsValidParsed r → IsValidParsed (then_no_affinity env r)
then_no_affinity-IsValidParsed env (error e) v = v
then_no_affinity-IsValidParsed env help v = v
then_no_affinity-IsValidParsed env version v = v
then_no_affinity-IsValidParsed env (parsed cfg) v =
    subst IsThreshold (sym (apply_no_affinity-usage_aware env cfg)) v

apply_variables-IsValidParsed :
    (env : Variables) (cfg : Config) → IsValid cfg → IsValidParsed (apply_variables env cfg)
unfolding apply_variables
apply_variables-IsValidParsed env cfg v =
    then_no_affinity-IsValidParsed env _
      (apply_usage_aware-IsValidParsed cfg.usage_aware env.usage_aware cfg v)

then_variables-IsValidParsed :
    (env : Variables) (r : Parsed) → IsValidParsed r → IsValidParsed (then_variables env r)
then_variables-IsValidParsed env (error e) v = tt
then_variables-IsValidParsed env help v = tt
then_variables-IsValidParsed env version v = tt
then_variables-IsValidParsed env (parsed cfg) v = apply_variables-IsValidParsed env cfg v

-- A command line that is accepted gives a threshold from 1 to 99 or none, from whichever source:
-- the flag, its default or the variable. So a threshold of 0, which would switch quota-aware
-- routing off, is never set.
pub parse_args-IsValid :
    (args : List Text) (env : Variables) (cfg : Config)
    → parse_args args env ≡ parsed cfg
    → IsValid cfg
unfolding parse_args
parse_args-IsValid args env cfg e = subst IsValidParsed e (
    then_variables-IsValidParsed env (parse_loop args nothing default_config)
      (parse_loop-IsValidParsed args nothing default_config tt))
