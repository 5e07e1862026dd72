-- ===== src/Cli/Serving.antt =====
-- src/main.rs: the loops that receive requests, in the main thread and in a worker. `handle` serves a
-- request on the state of the server, and `none` is a panic; what the listener yields, the stop flag
-- and the clock are arguments.
pub mod Drain
pub mod Laws
pub mod Dispatch
mod Tests
use ollamux.Base.{
  ℕ, zero, suc, ◌+◌, ◌-◌, ◌*◌, ◌≤◌, ◌<◌, ◌≡◌, refl, sym, ap, ◌∙◌, Bool, true, false, Option, none,
  some, ◌>>=◌, List, [], ◌∷◌, ◌++◌, All, ltb, if◌then◌else◌, Bool-cases, Option-cases, inl, inr,
  ◌⊎◌, arith,
}
use ollamux.Pool.{secs}

abbrev pub drain_time : ℕ
drain_time = secs 5

abbrev pub pause : ℕ
pause = 50_000_000

-- What `recv_timeout` and `try_recv` yield.
pub data Received (A : Type 0) : Type 0 where
  request : A → Received A
  nothing : Received A
  broken : Received A

-- A pass of a loop: the stop flag, then what is received.
pub record Wake (A : Type 0) : Type 0 where
  pub stop : Bool
  pub received : Received A

-- A pass of the drain: the clock, then what is received.
pub record Drained (A : Type 0) : Type 0 where
  pub now : ℕ
  pub received : Received A

module _ {A S : Type 0} (handle : A → S → Option S) where
  -- The main loop, until it sees the stop flag; `none` is also the end of what the environment
  -- grants.
  unfoldable pub accept_loop : List (Wake A) → S → Option S
  accept_loop [] s = none
  accept_loop (w ∷ ws) s =
      let rest = λ (u : S). accept_loop ws u in
      if Wake.stop w then some s else (elim (Wake.received w) [
        | request a ↦ handle a s >>= rest
        | nothing ↦ rest s
        | broken ↦ rest s
      ])

  -- The loop of a worker: an error of the listener ends it, too.
  unfoldable pub worker_loop : List (Wake A) → S → Option S
  worker_loop [] s = none
  worker_loop (w ∷ ws) s =
      let rest = λ (u : S). worker_loop ws u in
      if Wake.stop w then some s else (elim (Wake.received w) [
        | request a ↦ handle a s >>= rest
        | nothing ↦ rest s
        | broken ↦ some s
      ])

  -- The drain; `none` is also the end of what the environment grants.
  unfoldable pub drain_loop : ℕ → List (Drained A) → S → Option S
  drain_loop deadline [] s = none
  drain_loop deadline (d ∷ ds) s =
      let rest = λ (u : S). drain_loop deadline ds u in
      if ltb (Drained.now d) deadline
      then (elim (Drained.received d) [
        | request a ↦ handle a s >>= rest
        | nothing ↦ rest s
        | broken ↦ some s
      ])
      else some s

  -- The end of `main`, from the main loop on; `now` is the clock when the main loop ends.
  unfoldable pub serve : List (Wake A) → ℕ → List (Drained A) → S → Option S
  unfolding accept_loop drain_loop
  serve wakes now drains s = accept_loop wakes s >>= λ u. drain_loop (now + drain_time) drains u

  -- The requests one after the other.
  abbrev pub handle_all : List A → S → Option S
  handle_all [] s = some s
  handle_all (a ∷ later) s = handle a s >>= λ u. handle_all later u
