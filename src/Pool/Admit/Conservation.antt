-- ===== src/Pool/Admit/Conservation.antt =====
-- src/pool.rs: an admission takes one slot of the key that it gives, and no other, on every path.
use ollamux.Base.{
  ℕ, ◌+◌, ◌≡◌, refl, Bool, true, false, Option, none, some, List, [], ◌∷◌, All, get_elem?, leb,
  Bool-cases, Option-cases, inl, inr, arith, subst,
}
use ollamux.Pool.{Pool, modify}
use ollamux.Pool.Admit.{
  Round, Waited, got, refused, full, timed_out, Admission, admitted, rejected, start_wait, end_wait,
  try_acquire, enter_wait, leave_wait, wait_loop, acquire_on, first_free,
}
use ollamux.Pool.Admit.Held.{
  Fits, SameSlots, Takes, same_states, SameSlots-trans, Fits-SameSlots, Takes-SameSlots,
  SameSlots-Takes, modify-SameSlots, try_acquire-Takes,
}

-- What the other threads do while a request waits leaves the slots as they are.
abbrev pub Steady : Round → Type 0
Steady r = (p : Pool) → SameSlots p (r.others p)

-- A wait took the slot of the key, or none.
abbrev pub WaitTakes : Pool → Pool → ℕ → Waited → Type 0
WaitTakes p q key got = Takes p q key
WaitTakes p q key (refused r) = SameSlots p q

abbrev pub AdmissionTakes : Pool → Pool → Admission → Type 0
AdmissionTakes p q (admitted key) = Takes p q key
AdmissionTakes p q (rejected r) = SameSlots p q

abbrev pub FreeTakes : Pool → Pool → Option ℕ → Type 0
FreeTakes p q none = SameSlots p q
FreeTakes p q (some key) = Takes p q key

reflexive : (p : Pool) → SameSlots p p
reflexive p i = refl

pub first_free-Takes :
    (p q : Pool) (keys : List ℕ) (free : Option ℕ)
    → Fits p
    → first_free p keys ≡ some (q, free)
    → FreeTakes p q free
unfolding first_free
first_free-Takes p q [] free fits e =
    subst (FreeTakes p q) {x = none} {y = free} (ground arith) (same_states p q (ground arith))
first_free-Takes p q (k ∷ ks) free fits e = elim (Option-cases (try_acquire p k)) [
  | inl out ↦ absurd (ground arith)
  | inr ((r, true), tried) ↦
      subst (λ x. FreeTakes p x free) {x = r} {y = q} (ground arith)
        (subst (FreeTakes p r) {x = some k} {y = free} (ground arith)
          (try_acquire-Takes p r k fits tried))
  | inr ((r, false), tried) ↦ first_free-Takes p q ks free fits (ground arith)
]

WaitTakes-before :
    (o p q : Pool) (key : ℕ) (result : Waited)
    → SameSlots o p
    → WaitTakes p q key result
    → WaitTakes o q key result
WaitTakes-before o p q key got same takes = SameSlots-Takes o p q key same takes
WaitTakes-before o p q key (refused r) same kept = SameSlots-trans o p q same kept

WaitTakes-after :
    (o p q : Pool) (key : ℕ) (result : Waited)
    → WaitTakes o p key result
    → SameSlots p q
    → WaitTakes o q key result
WaitTakes-after o p q key got takes same = Takes-SameSlots o p q key takes same
WaitTakes-after o p q key (refused r) kept same = SameSlots-trans o p q kept same

pub wait_loop-Takes :
    (key deadline : ℕ) (rounds : List Round) (p q : Pool) (result : Waited)
    → Fits p
    → All Steady rounds
    → wait_loop key deadline rounds p ≡ some (q, result)
    → WaitTakes p q key result
unfolding wait_loop
wait_loop-Takes key deadline [] p q result fits steady e = elim (Option-cases (try_acquire p key)) [
  | inl out ↦ absurd (ground arith)
  | inr ((r, false), tried) ↦ absurd (ground arith)
  | inr ((r, true), tried) ↦ subst (WaitTakes p q key) {x = got} {y = result} (ground arith) (
      subst (λ x. Takes p x key) {x = r} {y = q} (ground arith)
        (try_acquire-Takes p r key fits tried))
]
wait_loop-Takes key deadline (t ∷ ts) p q result fits steady e =
    elim (Option-cases (try_acquire p key)) [
      | inl out ↦ absurd (ground arith)
      | inr ((r, true), tried) ↦ subst (WaitTakes p q key) {x = got} {y = result} (ground arith) (
          subst (λ x. Takes p x key) {x = r} {y = q} (ground arith)
            (try_acquire-Takes p r key fits tried))
      | inr ((r, false), tried) ↦ elim (Bool-cases (leb deadline t.now)) [
        | inl late ↦
            subst (WaitTakes p q key) {x = refused timed_out} {y = result} (ground arith)
              (same_states p q (ground arith))
        | inr early ↦ WaitTakes-before p (t.others p) q key result (steady.0 p) (
            wait_loop-Takes key deadline ts (t.others p) q result
              (Fits-SameSlots p (t.others p) fits (steady.0 p)) steady.1 (ground arith))
      ]
    ]

pub enter_wait-SameSlots :
    (p q : Pool) (key : ℕ) (entered : Bool) → enter_wait p key ≡ some (q, entered) → SameSlots p q
unfolding enter_wait
enter_wait-SameSlots p q key entered e = elim (Option-cases (get_elem? p.states key)) [
  | inl out ↦ absurd (ground arith)
  | inr (ks, found) ↦ elim (Bool-cases (leb ks.waiter_cap ks.waiters)) [
    | inl crowded ↦ same_states p q (ground arith)
    | inr room ↦ elim (Option-cases (modify p key start_wait)) [
      | inl out ↦ absurd (ground arith)
      | inr (r, made) ↦
          subst (SameSlots p) {x = r} {y = q} (ground arith)
            (modify-SameSlots p r key start_wait (λ ks. refl) made)
    ]
  ]
]

leave_wait-SameSlots : (p q : Pool) (key : ℕ) → leave_wait p key ≡ some q → SameSlots p q
unfolding leave_wait
leave_wait-SameSlots p q key e = modify-SameSlots p q key end_wait (λ ks. refl) e

pub acquire_on-Takes :
    (p q : Pool) (key timeout now : ℕ) (rounds : List Round) (result : Waited)
    → Fits p
    → All Steady rounds
    → acquire_on p key timeout now rounds ≡ some (q, result)
    → WaitTakes p q key result
unfolding acquire_on
acquire_on-Takes p q key timeout now rounds result fits steady e =
    elim (Option-cases (enter_wait p key)) [
      | inl out ↦ absurd (ground arith)
      | inr ((r, false), entered) ↦
          subst (WaitTakes p q key) {x = refused full} {y = result} (ground arith)
            (same_states p q (ground arith))
      | inr ((r, true), entered) ↦
          let same = enter_wait-SameSlots p r key true entered in
          elim (Option-cases (wait_loop key (now + timeout) rounds r)) [
            | inl out ↦ absurd (ground arith)
            | inr ((s, result'), waited) ↦
                let takes =
                  wait_loop-Takes key (now + timeout) rounds r s result'
                    (Fits-SameSlots p r fits same) steady waited in
                elim (Option-cases (leave_wait s key)) [
                  | inl out ↦ absurd (ground arith)
                  | inr (u, left) ↦ WaitTakes-before p r q key result same (
                      WaitTakes-after r s q key result
                        (subst (WaitTakes r s key) {x = result'} {y = result} (ground arith) takes)
                        (leave_wait-SameSlots s q key (ground arith)))
                ]
          ]
    ]
