-- ===== src/Proxy/Poller.antt =====
-- src/proxy.rs: `spawn_usage_poller`, the thread that keeps the usage snapshot fresh. A `Lap` is what
-- one pass of its loop meets: the stop flag at the head, the tick, the clock from which the nap is
-- counted, and the looks at the clock and at the flag between two sleeps of 250 ms.
pub mod Laws
mod Tests
use ollamux.Base.{
  ℕ, ◌+◌, ◌*◌, Bool, true, false, Option, none, some, ◌>>=◌, List, [], ◌∷◌, ltb, if◌then◌else◌,
}
use ollamux.Snapshot.{Floats}
use ollamux.Usage.{usage_ttl}
use ollamux.Usage.Tracker.{Fetched, Clock, Tracker, tick}

pub record Look : Type 0 where
  pub now : ℕ
  pub stop : Bool

pub record Lap (F : Type 0) : Type 0 where
  pub stop : Bool
  pub contended : Bool
  pub fetch : ℕ → Option (Fetched F)
  pub clock : Clock
  pub ticked : ℕ
  pub looks : List Look

-- How a nap ends: its time is over, at some reading of the clock, or the flag is set.
pub data Nap : Type 0 where
  woke : ℕ → Nap
  stopped : Nap

-- The inner loop; `none` is the end of what the environment grants.
unfoldable pub nap : ℕ → List Look → Option Nap
nap deadline [] = none
nap deadline (l ∷ ls) =
    let rest = nap deadline ls in
    if ltb l.now deadline then (if l.stop then some stopped else rest) else some (woke l.now)

-- A tick that was made: when, and whether it ran a round.
pub record Tick : Type 0 where
  pub at : ℕ
  pub ran : Bool

module _ {F : Type 0} (fl : Floats F) where
  -- The ticks of the poller, until it returns or the environment grants no more.
  unfoldable pub poll : Tracker F → List (Lap F) → Option (Tracker F × List Tick)
  unfolding nap tick
  poll t [] = some (t, [])
  poll t (lap ∷ laps) =
      let rest = λ (u : Tracker F). poll u laps in
      if Lap.stop lap
      then some (t, [])
      else (tick fl t lap.contended lap.fetch lap.clock >>= λ (u, ran).
          let this : Tick = record { at = Clock.started lap.clock; ran = ran } in
          elim (nap (lap.ticked + usage_ttl) lap.looks) [
            | none ↦ some (u, this ∷ [])
            | some ended ↦ elim ended [
              | stopped ↦ some (u, this ∷ [])
              | woke now ↦ rest u >>= λ (v, ticks). some (v, this ∷ ticks)
            ]
          ])
