-- ===== src/Pool/Admit/Returns.antt =====
-- src/pool.rs: an admission comes to an end, and no index is out of range on the way.
use ollamux.Base.{
  ℕ, ◌+◌, ◌≡◌, refl, ◌∙◌, true, false, Option, some, List, [], ◌∷◌, All, get_elem?, set, ltb, leb,
  ◌==◌, Bool-cases, Option-cases, inl, inr, arith, subst,
}
use ollamux.Pool.{KeyState, Pool, modify}
use ollamux.Pool.Admit.{
  Round, Waited, got, refused, full, timed_out, take_slot, start_wait, end_wait, try_acquire,
  wait_loop, acquire_on,
}
use ollamux.Pool.Admit.Slots.{
  Ends, later_end, try_acquire-eq, enter_wait-room, enter_wait-full, leave_wait-eq,
}
use ollamux.Pool.Admit.Held.{slots_at, Fits, SameSlots, Takes, Fits-SameSlots}
use ollamux.Pool.Admit.Conservation.{Steady, WaitTakes, enter_wait-SameSlots, wait_loop-Takes}

abbrev pub InRange : Pool → ℕ → Type 0
InRange p key = (s : ℕ × ℕ) × (slots_at p key ≡ some s)

pub InRange-found :
    (p : Pool) (key : ℕ) → InRange p key → (ks : KeyState) × (get_elem? p.states key ≡ some ks)
InRange-found p key (s, e) = elim (Option-cases (get_elem? p.states key)) [
  | inl out ↦ absurd (ground arith)
  | inr found ↦ found
]

pub InRange-SameSlots : (p q : Pool) (key : ℕ) → InRange p key → SameSlots p q → InRange q key
InRange-SameSlots p q key (s, e) same = (s, same key ∙ e)

pub InRange-Takes : (p q : Pool) (key other : ℕ) → InRange p other → Takes p q key → InRange q other
InRange-Takes p q key other (s, e) (held, slots, before, free, now, rest) =
    elim (Bool-cases (key == other)) [
      | inl same ↦ subst (InRange q) {x = key} {y = other} (ground arith) ((held + 1, slots), now)
      | inr differ ↦ (s, rest other (λ h. ground arith) ∙ e)
    ]

-- A computation that ends.
abbrev pub Returns : {A : Type 0} → Option A → Type 0
Returns {A} o = (a : A) × (o ≡ some a)

pub modify-Returns :
    (p : Pool) (key : ℕ) (f : KeyState → KeyState) → InRange p key → Returns (modify p key f)
unfolding modify
modify-Returns p key f inside =
    let (ks, found) = InRange-found p key inside in
    (record p { states = set p.states key (f ks) }, ground arith)

pub try_acquire-Returns : (p : Pool) (key : ℕ) → InRange p key → Returns (try_acquire p key)
try_acquire-Returns p key inside =
    let (ks, found) = InRange-found p key inside in
    elim (Bool-cases (ltb ks.held ks.concurrency)) [
      | inl free ↦ (
        (record p { states = set p.states key (take_slot ks) }, true),
        rw (try_acquire-eq p key ks found, free) refl,
      )
      | inr busy ↦ ((p, false), rw (try_acquire-eq p key ks found, busy) refl)
    ]

wait_loop-Returns :
    (key deadline : ℕ) (rounds : List Round) (p : Pool)
    → All Steady rounds
    → Ends deadline rounds
    → InRange p key
    → Returns (wait_loop key deadline rounds p)
unfolding wait_loop
wait_loop-Returns key deadline [] p steady ends inside = absurd ends
wait_loop-Returns key deadline (r ∷ rs) p steady ends inside =
    let ((q, free), tried) = try_acquire-Returns p key inside in
    elim (Bool-cases free) [
      | inl given ↦ ((q, got), rw (tried, given) refl)
      | inr none_free ↦ elim (Bool-cases (leb deadline r.now)) [
        | inl late ↦ ((p, refused timed_out), rw (tried, none_free, late) refl)
        | inr early ↦
            rw (tried, none_free, early)
              (wait_loop-Returns key deadline rs (r.others p) steady.1
                (later_end deadline r rs ends early)
                (InRange-SameSlots p (r.others p) key inside (steady.0 p)))
      ]
    ]

pub acquire_on-Returns :
    (p : Pool) (key timeout now : ℕ) (rounds : List Round)
    → Fits p
    → All Steady rounds
    → Ends (now + timeout) rounds
    → InRange p key
    → Returns (acquire_on p key timeout now rounds)
unfolding acquire_on
acquire_on-Returns p key timeout now rounds fits steady ends inside =
    let (ks, found) = InRange-found p key inside in
    elim (Bool-cases (leb ks.waiter_cap ks.waiters)) [
      | inl crowded ↦ ((p, refused full), rw (enter_wait-full p key ks found crowded) refl)
      | inr room ↦
          let entered : Pool = record p { states = set p.states key (start_wait ks) } in
          let into = enter_wait-room p key ks found room in
          let same = enter_wait-SameSlots p entered key true into in
          let inside' = InRange-SameSlots p entered key inside same in
          let ((q, result), ran) =
            wait_loop-Returns key (now + timeout) rounds entered steady ends inside' in
          let takes =
            wait_loop-Takes key (now + timeout) rounds entered q result
              (Fits-SameSlots p entered fits same) steady ran in
          let (ks', found') = InRange-found q key (waited entered q key result inside' takes) in
          (
            (record q { states = set q.states key (end_wait ks') }, result),
            rw (into, ran, leave_wait-eq q key ks' found') refl,
          )
    ]
  where
    waited :
        (p q : Pool) (key : ℕ) (result : Waited)
        → InRange p key
        → WaitTakes p q key result
        → InRange q key
    waited p q key got inside takes = InRange-Takes p q key key inside takes
    waited p q key (refused r) inside same = InRange-SameSlots p q key inside same
