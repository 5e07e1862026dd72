-- ===== src/Affinity/Refinement.antt =====
-- src/affinity.rs: sequences of `get`, `put` and `remove_if` implement the list of pins of
-- Affinity/Spec.
use ollamux.Base.{ℕ, ◌≡◌, refl, ap, subst, Option, List, [], ◌∷◌, ◌++◌, max, arith}
use ollamux.Affinity.Entries.{Assoc, lookup}
use ollamux.Affinity.Spec.{spec_get, spec_put, spec_remove_if}
use ollamux.Affinity.{LruMap, new, get, evict, make_room, store, put, remove_if}
use ollamux.Affinity.Represents.{
  Represents, get-Represents, new-Represents, put-Represents, remove_if-Represents,
}

pub data Call : Type 0 where
  gets : ℕ → Call
  puts : ℕ → ℕ → Call
  removes : ℕ → ℕ → Call

-- A call, and what a `get` answers; the other calls answer nothing.
abbrev pub step : LruMap → Call → LruMap × List (Option ℕ)
step l (gets id) = let (m, answer) = get l id in (m, answer ∷ [])
step l (puts id key) = (put l id key, [])
step l (removes id key) = (remove_if l id key, [])

-- The calls one after the other, and the answers in their order.
abbrev pub run : LruMap → List Call → LruMap × List (Option ℕ)
run l [] = (l, [])
run l (c ∷ cs) = let (m, answers) = run (step l c).0 cs in (m, (step l c).1 ++ answers)

-- What the list of pins answers to a `get` is its pin.
abbrev pub spec_step : ℕ → Assoc → Call → Assoc × List (Option ℕ)
spec_step cap s (gets id) = (spec_get s id, lookup id s ∷ [])
spec_step cap s (puts id key) = (spec_put cap s id key, [])
spec_step cap s (removes id key) = (spec_remove_if s id key, [])

abbrev pub spec_run : ℕ → Assoc → List Call → Assoc × List (Option ℕ)
spec_run cap s [] = (s, [])
spec_run cap s (c ∷ cs) =
    let (t, answers) = spec_run cap (spec_step cap s c).0 cs in
    (t, (spec_step cap s c).1 ++ answers)

-- The map holds the pins of the specification, and both have answered the same.
abbrev pub Agrees : LruMap × List (Option ℕ) → Assoc × List (Option ℕ) → Type 0
Agrees made specified = Represents made.0 specified.0 × (made.1 ≡ specified.1)

cap-step : (l : LruMap) (c : Call) → (step l c).0.cap ≡ l.cap
unfolding get put store make_room evict remove_if
cap-step l (gets id) = ground arith
cap-step l (puts id key) = ground arith
cap-step l (removes id key) = ground arith

step-Agrees :
    {l : LruMap} {s : Assoc} (c : Call) → Represents l s → Agrees (step l c) (spec_step l.cap s c)
step-Agrees (gets id) r =
    let (same, after) = get-Represents r id in (after, ap (λ answer. answer ∷ []) same)
step-Agrees (puts id key) r = (put-Represents id key r, refl)
step-Agrees (removes id key) r = (remove_if-Represents id key r, refl)

run-Agrees :
    (l : LruMap) (s : Assoc) (cs : List Call)
    → Represents l s
    → Agrees (run l cs) (spec_run l.cap s cs)
run-Agrees l s [] r = (r, refl)
run-Agrees l s (c ∷ cs) r =
    let (here, answer) = step-Agrees c r in
    let (later, answers) =
      subst (λ cap. Agrees (run (step l c).0 cs) (spec_run cap (spec_step l.cap s c).0 cs))
        (cap-step l c) (run-Agrees (step l c).0 (spec_step l.cap s c).0 cs here) in
    (later, cc)

-- After any sequence of `get`, `put` and `remove_if` on a new map, the map and its deque agree with
-- the list of pins that the same sequence builds: in recency order, no identity twice, and never
-- more pins than the capacity (at least 1). Every `get` of the sequence has answered the pin that
-- the list held at that point, and `none` where it held none.
pub run-Represents :
    (cap : ℕ) (cs : List Call)
    → Represents (run (new cap) cs).0 (spec_run (max cap 1) [] cs).0
      × ((run (new cap) cs).1 ≡ (spec_run (max cap 1) [] cs).1)
unfolding new
run-Represents cap cs = run-Agrees (new cap) [] cs (new-Represents cap)
