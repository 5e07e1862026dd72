-- ===== src/Pool/Admit/Slots.antt =====
-- src/pool.rs: what the steps of an admission do to the counters of the keys.
use ollamux.Base.{
  ℕ, ◌+◌, ◌-◌, ◌≤◌, ◌<◌, ◌^◌, ◌≡◌, ◌≢◌, refl, ap, ◌∙◌, ◌⊎◌, inl, inr, true, false, Option, none,
  some, List, [], ◌∷◌, All, get_elem?, set, get_elem?-lt, get_elem?-set_self, ltb, leb, leb→le, ◌↔◌,
  if◌then◌else◌, Option-cases, Bool-cases, arith,
}
use ollamux.Pool.{KeyState, Pool, modify}
use ollamux.Pool.Admit.{
  Round, Waited, got, refused, full, timed_out, take_slot, start_wait, end_wait, try_acquire,
  enter_wait, leave_wait, wait_loop, acquire_on,
}

-- `try_acquire` on an index in range: a slot is taken exactly if one is free.
pub try_acquire-eq :
    (p : Pool) (key : ℕ) (ks : KeyState)
    → get_elem? p.states key ≡ some ks
    → try_acquire p key ≡ (
        if ltb ks.held ks.concurrency
        then some (record p { states = set p.states key (take_slot ks) }, true)
        else some (p, false))
unfolding try_acquire modify
try_acquire-eq p key ks e = ground arith

abbrev pub waiters_of : Pool → ℕ → Option ℕ
waiters_of p key = elim (get_elem? p.states key) [ none ↦ none | some ks ↦ some ks.waiters ]

-- What the other threads do leaves the number of waiters of the key.
abbrev pub Quiet : ℕ → Round → Type 0
Quiet key r = (p : Pool) → waiters_of (r.others p) key ≡ waiters_of p key

abbrev pub Ends : ℕ → List Round → Type 0
Ends deadline [] = ⊥
Ends deadline (r ∷ rs) = (deadline ≤ r.now) ⊎ Ends deadline rs

in_range_of_waiters :
    (p : Pool) (key : ℕ) {w : ℕ}
    → waiters_of p key ≡ some w
    → (ks : KeyState) × (get_elem? p.states key ≡ some ks) × (ks.waiters ≡ w)
in_range_of_waiters p key e = elim (Option-cases (get_elem? p.states key)) [
  | inl out ↦ absurd (ground arith)
  | inr (ks, found) ↦ (ks, found, ground arith)
]

waiters-set :
    (p : Pool) (key : ℕ) (ks ks' : KeyState)
    → get_elem? p.states key ≡ some ks
    → waiters_of (record p { states = set p.states key ks' }) key ≡ some ks'.waiters
waiters-set p key ks ks' e =
    ground (arith, get_elem?-set_self p.states key ks' (get_elem?-lt p.states key e))

pub later_end :
    (deadline : ℕ) (r : Round) (rs : List Round)
    → Ends deadline (r ∷ rs)
    → leb deadline r.now ≡ false
    → Ends deadline rs
later_end deadline r rs (inl h) e = absurd (ground arith)
later_end deadline r rs (inr h) e = h

-- What a wait that ends comes to.
abbrev pub WaitEnds : ℕ → ℕ → Option (Pool × Waited) → Type 0
WaitEnds key w o =
    (q : Pool) × (result : Waited) × (o ≡ some (q, result))
    × (waiters_of q key ≡ some w)
    × (result ≢ refused full)

wait_loop_total :
    (key deadline w : ℕ) (rounds : List Round) (p : Pool)
    → All (Quiet key) rounds
    → Ends deadline rounds
    → waiters_of p key ≡ some w
    → WaitEnds key w (wait_loop key deadline rounds p)
unfolding wait_loop
wait_loop_total key deadline w [] p quiet ends e = absurd ends
wait_loop_total key deadline w (r ∷ rs) p quiet ends e =
    let (ks, found, here) = in_range_of_waiters p key e in
    elim (Bool-cases (ltb ks.held ks.concurrency)) [
      | inl free ↦ (
        record p { states = set p.states key (take_slot ks) },
        got,
        rw (try_acquire-eq p key ks found, free),
        waiters-set p key ks (take_slot ks) found ∙ ap some here,
        λ h. cc,
      )
      | inr busy ↦ elim (Bool-cases (leb deadline r.now)) [
        | inl late ↦
            (p, refused timed_out, rw (try_acquire-eq p key ks found, busy, late), e, λ h. cc)
        | inr early ↦
            rw (try_acquire-eq p key ks found, busy, early)
              (wait_loop_total key deadline w rs (r.others p) quiet.1
                (later_end deadline r rs ends early) (quiet.0 p ∙ e))
      ]
    ]

pub enter_wait-room :
    (p : Pool) (key : ℕ) (ks : KeyState)
    → get_elem? p.states key ≡ some ks
    → leb ks.waiter_cap ks.waiters ≡ false
    → enter_wait p key ≡ some (record p { states = set p.states key (start_wait ks) }, true)
unfolding enter_wait modify
enter_wait-room p key ks found room = ground arith

pub enter_wait-full :
    (p : Pool) (key : ℕ) (ks : KeyState)
    → get_elem? p.states key ≡ some ks
    → leb ks.waiter_cap ks.waiters ≡ true
    → enter_wait p key ≡ some (p, false)
unfolding enter_wait modify
enter_wait-full p key ks found crowded = ground arith

pub leave_wait-eq :
    (p : Pool) (key : ℕ) (ks : KeyState)
    → get_elem? p.states key ≡ some ks
    → leave_wait p key ≡ some (record p { states = set p.states key (end_wait ks) })
unfolding leave_wait modify
leave_wait-eq p key ks found = ground arith

started_waits : (ks : KeyState) → ks.waiters < 2 ^ 32 - 1 → (start_wait ks).waiters ≡ ks.waiters + 1
started_waits ks small = ground arith

ended_waits : (ks : KeyState) (w : ℕ) → ks.waiters ≡ w + 1 → (end_wait ks).waiters ≡ w
ended_waits ks w e = omega arith

not_both : (a b : ℕ) → leb a b ≡ false → a ≤ b → ⊥
not_both a b e h = ground arith

-- On a key of the pool with fewer than 2^32 - 1 waiters, `acquire_on` ends, given a round of the
-- wait at or past the deadline and other threads that leave the number of waiters of the key as it
-- is, whatever they do to its slots. The outcome is `full` exactly if the key has as many waiters
-- as it may have, else a slot or a timeout; and afterwards the key has as many waiters as before.
pub acquire_on_total :
    (p : Pool) (key timeout now : ℕ) (rounds : List Round) (ks : KeyState)
    → get_elem? p.states key ≡ some ks
    → ks.waiters < 2 ^ 32 - 1
    → All (Quiet key) rounds
    → Ends (now + timeout) rounds
    → (q : Pool) × (result : Waited) × (acquire_on p key timeout now rounds ≡ some (q, result))
      × (waiters_of q key ≡ some ks.waiters)
      × ((result ≡ refused full) ↔ (ks.waiter_cap ≤ ks.waiters))
unfolding acquire_on
acquire_on_total p key timeout now rounds ks found small quiet ends =
    elim (Bool-cases (leb ks.waiter_cap ks.waiters)) [
      | inl crowded ↦ (
        p,
        refused full,
        rw (enter_wait-full p key ks found crowded) refl,
        rw (found, waiters_of) refl,
        (λ h. leb→le _ _ crowded, λ h. refl),
      )
      | inr room ↦
          let entered : Pool = record p { states = set p.states key (start_wait ks) } in
          let at_entry : waiters_of entered key ≡ some (ks.waiters + 1) =
            waiters-set p key ks (start_wait ks) found ∙ ap some (started_waits ks small) in
          let (q, result, run, count, fine) =
            wait_loop_total key (now + timeout) (ks.waiters + 1) rounds entered quiet ends
              at_entry in
          let (ks', found', waits) = in_range_of_waiters q key count in
          (
            record q { states = set q.states key (end_wait ks') },
            result,
            rw (enter_wait-room p key ks found room, run, leave_wait-eq q key ks' found') refl,
            waiters-set q key ks' (end_wait ks') found'
                ∙ ap some (ended_waits ks' ks.waiters waits),
            (λ h. absurd (fine h), λ h. absurd (not_both ks.waiter_cap ks.waiters room h)),
          )
    ]
