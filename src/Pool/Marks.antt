-- ===== src/Pool/Marks.antt =====
-- src/pool.rs: the health transitions `mark_dead`, `mark_cooldown`, `mark_strike` and `settle`,
-- each as a step of the key's `Health` and of the pool. What they log is left out.

pub mod Laws
use ollamux.Base.{
  ℕ, ◌+◌, Bool, true, false, Option, none, some, ◌>>=◌, leb, if◌then◌else◌, add_u32, add_u64, Text,
}
use ollamux.Pool.{
  Health, KeyState, Pool, State, up, cooldown, dead, strikes_to_cool, cooldown_429, modify,
}

unfoldable pub die : Text → Health → Health
die reason h = record h {
  state = dead;
  cooldown_until = none;
  strikes = 0;
  fails = add_u64 h.fails 1;
  last_error = some reason;
}

unfoldable pub cool : ℕ → ℕ → Text → Health → Health
cool now dur reason h = record h {
  state = cooldown;
  cooldown_until = some (now + dur);
  last_error = some reason;
  fails = add_u64 h.fails 1;
}

unfoldable pub add_strike : Text → Health → Health
add_strike reason h = record h {
  strikes = add_u32 h.strikes 1;
  fails = add_u64 h.fails 1;
  last_error = some reason;
}

abbrev pub clear_strikes : Health → Health
clear_strikes h = record h { strikes = 0 }

unfoldable pub strike : ℕ → Text → Health → Health
unfolding add_strike cool
strike now reason h =
    let struck = add_strike reason h in
    if leb strikes_to_cool struck.strikes
    then clear_strikes (cool now cooldown_429 reason struck)
    else struck

unfoldable pub confirm : Bool → Health → Health
confirm false h = h
confirm true h = record h {
  state = up;
  cooldown_until = none;
  strikes = 0;
  successes = add_u64 h.successes 1;
}

abbrev pub on_health : (Health → Health) → KeyState → KeyState
on_health f ks = record ks { health = f ks.health }

unfoldable pub mark_dead : Pool → ℕ → Text → Option Pool
unfolding die modify
mark_dead p key reason = modify p key (on_health (die reason))

unfoldable pub mark_cooldown : Pool → ℕ → ℕ → Text → ℕ → Option Pool
unfolding cool modify
mark_cooldown p key dur reason now = modify p key (on_health (cool now dur reason))

unfoldable pub mark_strike : Pool → ℕ → Text → ℕ → Option Pool
unfolding strike modify
mark_strike p key reason now = modify p key (on_health (strike now reason))

abbrev pub remember : Bool → ℕ → Pool → Pool
remember ok key p = if ok then record p { rr = key } else p

unfoldable pub settle : Pool → ℕ → Bool → Option Pool
unfolding confirm modify
settle p key ok = do q ← modify p key (on_health (confirm ok)); some (remember ok key q)
