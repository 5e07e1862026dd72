-- ===== src/Cli/Startup.antt =====
-- src/main.rs: from the command line to the pool that serves. The keys come from `Config.load`;
-- binding the address and the signals are left out.
use ollamux.Base.{
  is_some, is_empty, ℕ, ◌≤◌, ◌≡◌, refl, sym, ap, subst, ◌∙◌, Bool, true, false, Option, none, some,
  List, [], ◌∷◌, min, max, map, if◌then◌else◌, All, Text, arith, get_elem?, count, ◌↔◌,
}
use ollamux.Config.{Environment, Entry, load, ok, err}
use ollamux.Config.Laws.{IsEntry, load-IsValid}
use ollamux.Config
use ollamux.Pool.{
  Pool, KeyState, new, new_key, set_affinity_enabled, total_slots, threshold_disabled,
}
use ollamux.Pool.Quota.{set_usage_threshold}
use ollamux.Pool.Interleaving.{System, Reach, IsU32, Inv, new-Accounted, Reach-Inv}
use ollamux.Cli.{Config, Variables, Parsed, error, help, version, parsed, parse_args, waiter_cap}
use ollamux.Cli.Laws.{IsThreshold, parse_args-IsValid}

-- The process ends with a status, or it serves.
pub data Startup : Type 0 where
  exits : ℕ → Startup
  serves : Config → Pool → Startup

abbrev pub apply_threshold : Option ℕ → Pool → Pool
apply_threshold none p = p
apply_threshold (some pct) p = set_usage_threshold p pct

-- The pool that `main` sets up.
unfoldable pub set_up : Config → List Entry → Pool
unfolding new set_usage_threshold set_affinity_enabled
set_up cfg entries =
    set_affinity_enabled (apply_threshold cfg.usage_aware (new entries waiter_cap cfg.verbose))
      cfg.affinity

abbrev pub after_load : Config → Config.Parsed (List Entry) → Startup
after_load cfg (err e) = exits 1
after_load cfg (ok entries) = if is_empty entries then exits 1 else serves cfg (set_up cfg entries)

abbrev pub after_args : Environment → Parsed → Startup
after_args files (error e) = exits 2
after_args files help = exits 0
after_args files version = exits 0
after_args files (parsed cfg) = after_load cfg (load files cfg.keys_path)

-- `main`, up to the listener.
unfoldable pub start_up : Environment → List Text → Variables → Startup
unfolding load parse_args set_up
start_up files args env = after_args files (parse_args args env)

-- Whether the usage poller runs.
abbrev pub polls : Config → Bool
polls cfg = is_some cfg.usage_aware

-- The threads of `spawn_workers`.
unfoldable pub workers : Pool → ℕ
workers p = min (max (total_slots p.states) 4) 64

pub IsU32-IsEntry : (es : List Entry) → All IsEntry es → All IsU32 es
IsU32-IsEntry [] h = h
IsU32-IsEntry (e ∷ es) (h, hs) = (h.2, IsU32-IsEntry es hs)

-- What a start that serves went through.
abbrev pub Loaded : Environment → List Text → Variables → Config → Pool → Type 0
Loaded files args env cfg p =
    (entries : List Entry) × (parse_args args env ≡ parsed cfg)
    × (load files cfg.keys_path ≡ ok entries)
    × (is_empty entries ≡ false)
    × (p ≡ set_up cfg entries)

if-serves :
    (b : Bool) (c cfg : Config) (p q : Pool)
    → (if b then exits 1 else serves c q) ≡ serves cfg p
    → (b ≡ false) × (c ≡ cfg) × (q ≡ p)
if-serves true c cfg p q h = cc
if-serves false c cfg p q h = (refl, cc, cc)

after_load-serves :
    (c cfg : Config) (p : Pool) (r : Config.Parsed (List Entry))
    → after_load c r ≡ serves cfg p
    → (entries : List Entry) × (c ≡ cfg)
      × (r ≡ ok entries)
      × (is_empty entries ≡ false)
      × (p ≡ set_up c entries)
after_load-serves c cfg p (err e) h = cc
after_load-serves c cfg p (ok entries) h =
    let (g, same, made) = if-serves (is_empty entries) c cfg p (set_up c entries) h in
    (entries, same, refl, g, sym made)

after_args-serves :
    (files : Environment) (args : List Text) (env : Variables) (cfg : Config) (p : Pool)
    (r : Parsed)
    → parse_args args env ≡ r
    → after_args files r ≡ serves cfg p
    → Loaded files args env cfg p
after_args-serves files args env cfg p (error e) a h = cc
after_args-serves files args env cfg p help a h = cc
after_args-serves files args env cfg p version a h = cc
after_args-serves files args env cfg p (parsed c) a h =
    let (entries, same, loaded, g, made) = after_load-serves c cfg p (load files c.keys_path) h in
    (
      entries,
      a ∙ ap (λ x. parsed x) same,
      subst (λ x. load files x.keys_path ≡ ok entries) same loaded,
      g,
      subst (λ x. p ≡ set_up x entries) same made,
    )

pub start_up-serves :
    (files : Environment) (args : List Text) (env : Variables) (cfg : Config) (p : Pool)
    → start_up files args env ≡ serves cfg p
    → Loaded files args env cfg p
unfolding start_up
start_up-serves files args env cfg p h =
    after_args-serves files args env cfg p (parse_args args env) refl h

apply_threshold-states : (o : Option ℕ) (p : Pool) → (apply_threshold o p).states ≡ p.states
unfolding set_usage_threshold
apply_threshold-states none p = refl
apply_threshold-states (some pct) p = refl

pub set_up-states :
    (cfg : Config) (es : List Entry) → (set_up cfg es).states ≡ map (λ e. new_key e.1 waiter_cap) es
unfolding set_up new set_affinity_enabled
set_up-states cfg es = apply_threshold-states cfg.usage_aware (new es waiter_cap cfg.verbose)

-- Quota-aware routing of the pool is on exactly if the usage poller runs.
abbrev QuotaMatches : Option ℕ → Pool → Type 0
QuotaMatches o p =
    ((p.usage_threshold_x10 ≡ threshold_disabled) ↔ (is_some o ≡ false))
    × (p.usage_threshold_x10 ≤ 990)

apply_threshold-QuotaMatches :
    (o : Option ℕ) (p : Pool)
    → p.usage_threshold_x10 ≡ threshold_disabled
    → IsThreshold o
    → QuotaMatches o (apply_threshold o p)
unfolding set_usage_threshold
apply_threshold-QuotaMatches none p e t = ((λ x. refl, λ x. e), omega arith)
apply_threshold-QuotaMatches (some pct) p e (l, u) =
    ((λ x. absurd (omega arith), λ x. cc), omega arith)

set_up-keys :
    (cfg : Config) (es : List Entry) → is_empty es ≡ false → is_empty (set_up cfg es).keys ≡ false
unfolding set_up new set_affinity_enabled
set_up-keys cfg es g = keys cfg.usage_aware es g
  where
    keys :
        (o : Option ℕ) (xs : List Entry)
        → is_empty xs ≡ false
        → is_empty (apply_threshold o (new xs waiter_cap cfg.verbose)).keys ≡ false
    keys o [] e = cc
    keys none (x ∷ xs) e = refl
    keys (some pct) (x ∷ xs) e = refl

set_up-affinity : (cfg : Config) (es : List Entry) → (set_up cfg es).affinity_enabled ≡ cfg.affinity
unfolding set_up set_affinity_enabled
set_up-affinity cfg es = refl

set_up-QuotaMatches :
    (cfg : Config) (es : List Entry)
    → IsThreshold cfg.usage_aware
    → QuotaMatches cfg.usage_aware (set_up cfg es)
unfolding set_up new set_affinity_enabled
set_up-QuotaMatches cfg es t =
    apply_threshold-QuotaMatches cfg.usage_aware (new es waiter_cap cfg.verbose) refl t

-- When the program serves, the pool has a key, its affinity is as configured, its quota threshold
-- is 0 (off) exactly if the usage poller does not run, and the threshold is at most 990 (99 %).
pub start_up-pool :
    (files : Environment) (args : List Text) (env : Variables) (cfg : Config) (p : Pool)
    → start_up files args env ≡ serves cfg p
    → (is_empty p.keys ≡ false)
      × (p.affinity_enabled ≡ cfg.affinity)
      × ((p.usage_threshold_x10 ≡ threshold_disabled) ↔ (polls cfg ≡ false))
      × (p.usage_threshold_x10 ≤ 990)
start_up-pool files args env cfg p h =
    let (entries, a, l, g, made) = start_up-serves files args env cfg p h in
    let quota =
      subst (QuotaMatches cfg.usage_aware) (sym made)
        (set_up-QuotaMatches cfg entries (parse_args-IsValid args env cfg a)) in
    (
      subst (λ q. is_empty q.keys ≡ false) (sym made) (set_up-keys cfg entries g),
      ap (λ q. q.affinity_enabled) made ∙ set_up-affinity cfg entries,
      quota.0,
      quota.1,
    )

pub start_up-Inv :
    (files : Environment) (args : List Text) (env : Variables) (cfg : Config) (p : Pool)
    → start_up files args env ≡ serves cfg p
    → Inv (record { pool = p; permits = []; waiting = [] })
start_up-Inv files args env cfg p h key ks at =
    let (entries, a, l, g, made) = start_up-serves files args env cfg p h in
    new-Accounted entries waiter_cap key ks
      (IsU32-IsEntry entries (load-IsValid files cfg.keys_path entries l).0.0) (omega arith)
      (sym (ap (λ ss. get_elem? ss key) (ap (λ q. q.states) made ∙ set_up-states cfg entries)) ∙ at)

-- However the threads of a program that serves interleave on its pool, the slots in use of every
-- key are exactly the permits that are out on it, and at most its concurrency; and its waiters are
-- exactly the threads that wait on it, and at most its cap.
pub start_up-Accounted :
    (files : Environment) (args : List Text) (env : Variables) (cfg : Config) (p : Pool)
    (s : System)
    → start_up files args env ≡ serves cfg p
    → Reach (record { pool = p; permits = []; waiting = [] }) s
    → (key : ℕ) (ks : KeyState) → get_elem? s.pool.states key ≡ some ks
    → (ks.held ≡ count key s.permits)
      × (count key s.permits ≤ ks.concurrency)
      × (ks.waiters ≡ count key s.waiting)
      × (count key s.waiting ≤ ks.waiter_cap)
start_up-Accounted files args env cfg p s h r key ks at =
    ground (arith, Reach-Inv (start_up-Inv files args env cfg p h) r key ks at)
