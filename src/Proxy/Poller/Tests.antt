-- ===== src/Proxy/Poller/Tests.antt =====
-- src/proxy.rs: the usage poller at concrete inputs, and the theorems on it.
use ollamux.Base.{
  ℕ, zero, suc, ◌+◌, ◌≡◌, refl, false, true, Option, none, some, List, [], ◌∷◌, length, codes,
  arith,
}
use ollamux.Samples.{three_keys, one_state, whole_floats}
use ollamux.Pool.{secs}
use ollamux.Usage.{usage_ttl}
use ollamux.Pool.Quota.{publish_usage}
use ollamux.Usage.Tracker.{Fetched, failed, network, Tracker, new_tracker, tick}
use ollamux.Proxy.Poller.{Look, Lap, Nap, nap, Tick, poll}
use ollamux.Proxy.Poller.Laws.{quarter, Sleeps, nap_ends, EachRan, poll-EachRan}

abbrev looks : ℕ → ℕ → List Look
looks zero now = []
looks (suc n) now = record { now = now; stop = false } ∷ looks n (now + quarter)

looks-Sleeps : (n now : ℕ) → Sleeps now (looks n now)
looks-Sleeps zero now = tt
looks-Sleeps (suc n) now = (omega arith, looks-Sleeps n (now + quarter))

length-looks : (n now : ℕ) → length (looks n now) ≡ n
length-looks zero now = refl
length-looks (suc n) now = omega (arith, length-looks n (now + quarter))

nap_ends_example : (n : Nap) × (nap (secs 9 + usage_ttl) (looks 241 (secs 9)) ≡ some n)
nap_ends_example =
    nap_ends (secs 9) (looks 241 (secs 9)) (looks-Sleeps 241 (secs 9))
      (omega (arith, length-looks 241 (secs 9)))

abbrev unreachable : ℕ → Option (Fetched ℕ)
unreachable i = some (failed (network (codes "unreachable")))

abbrev first_lap : Lap ℕ
first_lap = record {
  stop = false;
  contended = false;
  fetch = unreachable;
  clock = record { started = secs 1; ended = secs 2; unix = 1_000_000 };
  ticked = secs 2;
  looks = record { now = secs 3; stop = false } ∷ record { now = secs 62; stop = false } ∷ [];
}

abbrev second_lap : Lap ℕ
second_lap = record {
  stop = false;
  contended = false;
  fetch = unreachable;
  clock = record { started = secs 62; ended = secs 63; unix = 1_000_061 };
  ticked = secs 63;
  looks = record { now = secs 64; stop = true } ∷ [];
}

abbrev tracker : Tracker ℕ
tracker = new_tracker (record three_keys { keys = codes "key-aaaa" ∷ []; states = one_state ∷ [] })

abbrev laps : List (Lap ℕ)
laps = first_lap ∷ second_lap ∷ []

-- What the poller leaves.
abbrev polled : Tracker ℕ × List Tick
polled = elim (poll whole_floats tracker laps) [ none ↦ (tracker, []) | some r ↦ r ]

abbrev two_ticks : List Tick
two_ticks = record { at = secs 1; ran = true } ∷ record { at = secs 62; ran = true } ∷ []

poll-EachRan_example : EachRan 0 two_ticks
unfolding poll nap tick new_tracker publish_usage
poll-EachRan_example =
    poll-EachRan whole_floats tracker polled.0 0 laps two_ticks
      (λ s e. absurd (ground arith), λ l e. absurd (ground arith), omega arith, omega arith)
      (refl, (refl, tt))
      (
        omega arith,
        omega arith,
        omega arith,
        λ now e. (ground arith, omega arith, omega arith, λ n f. tt),
      )
      refl
