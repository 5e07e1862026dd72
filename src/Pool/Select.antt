-- ===== src/Pool/Select.antt =====
-- src/pool.rs: `healthy_any`, `candidates`, `next_retry_in`, and the check that all keys are dead.
-- Reading a state makes an expired cooldown up; `any` and `all` stop at the first answer.
pub mod Laws
pub mod Rotation
pub mod Cooling
use ollamux.Base.{
  ℕ, suc, ◌+◌, ◌-◌, ◌*◌, ◌/◌, ◌%◌, ◌^◌, Bool, true, false, Option, none, some, List, [], ◌∷◌, map,
  min, max, length, get_elem?, filter, range_from, ltb, if◌then◌else◌,
}
use ollamux.Base.Sort.{SortKey, sort_by_key}
use ollamux.Pool.{Health, KeyState, Pool, State, up, cooldown, dead, observe, observe_key}

abbrev pub is_up : State → Bool
is_up up = true
is_up cooldown = false
is_up dead = false

abbrev pub is_dead : State → Bool
is_dead up = false
is_dead cooldown = false
is_dead dead = true

-- `states.iter().any(|st| st.state() == State::Up)`, and the states that it leaves.
unfoldable pub any_up : List KeyState → ℕ → List KeyState × Bool
unfolding observe_key
any_up [] now = ([], false)
any_up (ks ∷ rest) now =
    let seen = observe_key ks now in
    let later = any_up rest now in
    if is_up seen.health.state then (seen ∷ rest, true) else (seen ∷ later.0, later.1)

unfoldable pub healthy_any : Pool → ℕ → Pool × Bool
unfolding any_up
healthy_any p now = let r = any_up p.states now in (record p { states = r.0 }, r.1)

-- `states.iter().all(|st| st.state() == State::Dead)`, and the states that it leaves.
unfoldable pub all_dead : List KeyState → ℕ → List KeyState × Bool
unfolding observe_key
all_dead [] now = ([], true)
all_dead (ks ∷ rest) now =
    let seen = observe_key ks now in
    let later = all_dead rest now in
    if is_dead seen.health.state then (seen ∷ later.0, later.1) else (seen ∷ rest, false)

-- The end of the cooldown of a key that is in cooldown.
unfoldable pub cooling_until : KeyState → Option ℕ
cooling_until ks = elim ks.health.state [
  | up ↦ none
  | dead ↦ none
  | cooldown ↦ ks.health.cooldown_until
]

unfoldable pub soonest : List KeyState → Option ℕ
unfolding cooling_until
soonest [] = none
soonest (ks ∷ rest) = elim (cooling_until ks) [
  | none ↦ soonest rest
  | some t ↦ elim (soonest rest) [ none ↦ some t | some u ↦ some (min t u) ]
]

unfoldable pub next_retry_in : List KeyState → ℕ → Option ℕ
unfolding soonest
next_retry_in states now = elim (soonest states) [ none ↦ none | some t ↦ some (t - now) ]

-- Every state is read.
unfoldable pub observe_all : List KeyState → ℕ → List KeyState
unfolding observe_key
observe_all [] now = []
observe_all (ks ∷ rest) now = observe_key ks now ∷ observe_all rest now

abbrev pub up_at : List KeyState → ℕ → Bool
up_at states i = elim (get_elem? states i) [ none ↦ false | some ks ↦ is_up ks.health.state ]

-- The key's over-quota bit; keys at or over 64 have none.
unfoldable pub over_bit : ℕ → ℕ → ℕ
over_bit mask i = if ltb i 64 then mask / 2 ^ i % 2 else 0

unfoldable pub load_x1024 : List KeyState → ℕ → ℕ
load_x1024 states i = elim (get_elem? states i) [
  | none ↦ 0
  | some ks ↦ ks.held * 1024 / ks.concurrency
]

unfoldable pub rank : Pool → ℕ → SortKey
unfolding over_bit load_x1024
rank p i = record {
  over = over_bit p.over_quota_mask i;
  load = load_x1024 p.states i;
  ord = (i + p.rr) % 2 ^ 64 % max (length p.states) 1;
}

-- The pool after the states were read, and the candidates, best first.
unfoldable pub candidates : Pool → ℕ → Pool × List ℕ
unfolding observe_all rank sort_by_key
candidates p now =
    let q = record p { states = observe_all p.states now } in
    (q, sort_by_key (rank q) (filter (up_at q.states) (range_from 0 (length q.states))))
