-- ===== src/Pool.antt =====
-- src/pool.rs: the key pool. `KeyState` and `Pool` are records, a mutex or an atomic is one step
-- for each operation, and `None` stands for the panic of an index out of range. `Instant` and
-- `Duration` are nanoseconds; a method takes the clock's reading as an argument.
pub mod Marks
pub mod Quota
pub mod Select
pub mod Admit
pub mod Info
pub mod Interleaving
mod Tests
use ollamux.Base.{
  ℕ, ◌+◌, ◌-◌, ◌*◌, ◌/◌, Bool, true, false, Option, none, some, ◌>>=◌, List, [], ◌∷◌, map, max,
  length, get_elem?, set, ltb, if◌then◌else◌, add_u32, Text, drop,
}
use ollamux.Affinity.{LruMap}
use ollamux.Affinity

pub data State : Type 0 where
  up cooldown dead : State

pub record Health : Type 0 where
  pub state : State
  pub cooldown_until : Option ℕ
  pub strikes : ℕ
  pub fails : ℕ
  pub successes : ℕ
  pub last_error : Option Text

pub record KeyState : Type 0 where
  pub concurrency : ℕ
  pub held : ℕ
  pub waiters : ℕ
  pub waiter_cap : ℕ
  pub health : Health

pub record Pool : Type 0 where
  pub keys : List Text
  pub states : List KeyState
  pub rr : ℕ
  pub verbose : Bool
  pub usage_threshold_x10 : ℕ
  pub over_quota_mask : ℕ
  pub affinity_enabled : Bool
  pub affinity : LruMap

abbrev pub one_second : ℕ
one_second = 1_000_000_000

abbrev pub secs : ℕ → ℕ
secs n = n * one_second

abbrev pub as_secs : ℕ → ℕ
as_secs d = d / one_second

abbrev pub cooldown_429 : ℕ
cooldown_429 = secs 60

abbrev pub strikes_to_cool : ℕ
strikes_to_cool = 3

abbrev pub threshold_disabled : ℕ
threshold_disabled = 0

abbrev pub affinity_cap : ℕ
affinity_cap = 4096

abbrev pub fresh_health : Health
fresh_health = record {
  state = up;
  cooldown_until = none;
  strikes = 0;
  fails = 0;
  successes = 0;
  last_error = none;
}

-- `KeyState::new`.
unfoldable pub new_key : ℕ → ℕ → KeyState
new_key concurrency waiter_cap = record {
  concurrency = max concurrency 1;
  held = 0;
  waiters = 0;
  waiter_cap = waiter_cap;
  health = fresh_health;
}

unfoldable pub new : List (Text × ℕ) → ℕ → Bool → Pool
unfolding new_key
new keys_with_concurrency waiter_cap verbose = record {
  keys = map (λ e. e.0) keys_with_concurrency;
  states = map (λ e. new_key e.1 waiter_cap) keys_with_concurrency;
  rr = 0;
  verbose = verbose;
  usage_threshold_x10 = threshold_disabled;
  over_quota_mask = 0;
  affinity_enabled = true;
  affinity = Affinity.new affinity_cap;
}

-- The state of one key is changed, or the index panics.
unfoldable pub modify : Pool → ℕ → (KeyState → KeyState) → Option Pool
modify p key f =
    get_elem? p.states key >>= λ ks. some (record p { states = set p.states key (f ks) })

-- `Health` as `KeyState::state` leaves it, and the effective state.
unfoldable pub observe : Health → ℕ → Health
observe h now = elim h.state [
  | up ↦ h
  | dead ↦ h
  | cooldown ↦ elim h.cooldown_until [
    | some t ↦ if ltb now t then h else record h { state = up; cooldown_until = none }
    | none ↦ record h { state = up; cooldown_until = none }
  ]
]

unfoldable pub observe_key : KeyState → ℕ → KeyState
unfolding observe
observe_key ks now = record ks { health = observe ks.health now }

unfoldable pub total_slots : List KeyState → ℕ
total_slots [] = 0
total_slots (ks ∷ rest) = add_u32 ks.concurrency (total_slots rest)

-- `config::suffix`: the last four characters.
unfoldable pub suffix : Text → Text
suffix key = drop (length key - 4) key

unfoldable pub suffix_of : Pool → ℕ → Option Text
unfolding suffix
suffix_of p key = get_elem? p.keys key >>= λ k. some (suffix k)

-- `secret_of`; `none` is the panic of an index out of range.
unfoldable pub secret_of : Pool → ℕ → Option Text
secret_of p key = get_elem? p.keys key

unfoldable pub concurrencies : Pool → List ℕ
concurrencies p = map (λ ks. ks.concurrency) p.states

-- ----- prompt-cache affinity -----

unfoldable pub set_affinity_enabled : Pool → Bool → Pool
set_affinity_enabled p on = record p { affinity_enabled = on }

unfoldable pub pinned_key : Pool → ℕ → Pool × Option ℕ
pinned_key p id =
    if p.affinity_enabled
    then (record p { affinity = (Affinity.get p.affinity id).0 }, (Affinity.get p.affinity id).1)
    else (p, none)

unfoldable pub pin : Pool → ℕ → ℕ → Pool
pin p id key =
    if p.affinity_enabled then record p { affinity = Affinity.put p.affinity id key } else p

unfoldable pub unpin : Pool → ℕ → ℕ → Pool
unpin p id key = record p { affinity = Affinity.remove_if p.affinity id key }
