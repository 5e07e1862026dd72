-- ===== src/Pool/Admit/Affine.antt =====
-- src/pool.rs: the slots over `admit_affine`, on the fast path of a pinned key and after it.
use ollamux.Base.{
  ℕ, ◌≡◌, refl, ap, Bool, true, false, Option, none, some, List, All, get_elem?, Bool-cases,
  Option-cases, inl, inr, arith, subst, not, ◌&&◌,
}
use ollamux.Pool.{Pool, modify, observe_key, pin, pinned_key}
use ollamux.Pool.Quota.{is_over_quota}
use ollamux.Pool.Admit.{
  Round, Admission, admitted, rejected, try_acquire, admit, state_up, try_pinned, pin_admitted,
  admit_and_pin, admit_affine,
}
use ollamux.Pool.Admit.Held.{
  Fits, SameSlots, Takes, same_states, SameSlots-trans, Fits-SameSlots, Takes-SameSlots,
  SameSlots-Takes, modify-SameSlots, try_acquire-Takes, try_acquire-refused,
}
use ollamux.Pool.Admit.Conservation.{Steady, AdmissionTakes}
use ollamux.Pool.Admit.Balance.{AdmissionTakes-before, AdmissionTakes-eq, admit-AdmissionTakes}

pub pin-states : (p : Pool) (id key : ℕ) → (pin p id key).states ≡ p.states
unfolding pin
pin-states p id key = ground arith

pub pinned_key-states : (p : Pool) (id : ℕ) → (pinned_key p id).0.states ≡ p.states
unfolding pinned_key
pinned_key-states p id = ground arith

pin_admitted-AdmissionTakes :
    (p q : Pool) (id : ℕ) (adm : Admission)
    → AdmissionTakes p q adm
    → AdmissionTakes p (pin_admitted id (q, adm)).0 (pin_admitted id (q, adm)).1
pin_admitted-AdmissionTakes p q id (admitted key) takes =
    Takes-SameSlots p q (pin q id key) key takes
      (same_states q (pin q id key) (pin-states q id key))
pin_admitted-AdmissionTakes p q id (rejected r) same = same

admit_and_pin-AdmissionTakes :
    (p q : Pool) (id timeout now : ℕ) (rounds : List Round) (adm : Admission)
    → Fits p
    → All Steady rounds
    → admit_and_pin p id timeout now rounds ≡ some (q, adm)
    → AdmissionTakes p q adm
unfolding admit_and_pin
admit_and_pin-AdmissionTakes p q id timeout now rounds adm fits steady e =
    elim (Option-cases (admit p timeout now rounds)) [
      | inl out ↦ absurd (ground arith)
      | inr ((r, first), ran) ↦
          AdmissionTakes-eq p q (pin_admitted id (r, first)).0 adm (pin_admitted id (r, first)).1
            (ground arith)
            (pin_admitted-AdmissionTakes p r id first
              (admit-AdmissionTakes p r timeout now rounds first fits steady ran))
    ]

pub state_up-SameSlots :
    (p q : Pool) (key now : ℕ) (up_now : Bool)
    → state_up p key now ≡ some (q, up_now)
    → SameSlots p q
unfolding state_up observe_key
state_up-SameSlots p q key now up_now e = elim (Option-cases (get_elem? p.states key)) [
  | inl out ↦ absurd (ground arith)
  | inr (ks, found) ↦ elim (Option-cases (modify p key (λ s. observe_key s now))) [
    | inl out ↦ absurd (ground arith)
    | inr (r, made) ↦
        subst (SameSlots p) {x = r} {y = q} (ground arith)
          (modify-SameSlots p r key (λ s. observe_key s now) (λ ks. refl) made)
  ]
]

-- Whether the pinned key was given.
abbrev pub PinnedTakes : Pool → Pool → ℕ → Bool → Type 0
PinnedTakes p q key true = Takes p q key
PinnedTakes p q key false = SameSlots p q

PinnedTakes-eq :
    (p q r : Pool) (key : ℕ) (a b : Bool)
    → ◌≡◌ {A = Option (Pool × Bool)} (some (r, b)) (some (q, a))
    → PinnedTakes p r key b
    → PinnedTakes p q key a
PinnedTakes-eq p q r key a b e takes =
    subst (λ x. PinnedTakes p x key a) {x = r} {y = q} (ground arith)
      (subst (PinnedTakes p r key) {x = b} {y = a} (ground arith) takes)

pub try_pinned-PinnedTakes :
    (p q : Pool) (id key now : ℕ) (served : Bool)
    → Fits p
    → try_pinned p id key now ≡ some (q, served)
    → PinnedTakes p q key served
unfolding try_pinned
try_pinned-PinnedTakes p q id key now served fits e = elim (Option-cases (state_up p key now)) [
  | inl out ↦ absurd (ground arith)
  | inr ((r, is_selectable), seen) ↦
      let same = state_up-SameSlots p r key now is_selectable seen in
      elim (Bool-cases (is_selectable && not (is_over_quota r key))) [
        | inr unfit ↦ PinnedTakes-eq p q r key served false (ground arith) same
        | inl fit ↦ elim (Option-cases (try_acquire r key)) [
          | inl out ↦ absurd (ground arith)
          | inr ((u, false), tried) ↦ PinnedTakes-eq p q u key served false (ground arith) (
              SameSlots-trans p r u same
                (same_states r u (ap (λ x. x.states) (try_acquire-refused r u key tried))))
          | inr ((u, true), tried) ↦
              PinnedTakes-eq p q (pin u id key) key served true (ground arith) (
                SameSlots-Takes p r (pin u id key) key same (
                  Takes-SameSlots r u (pin u id key) key
                    (try_acquire-Takes r u key (Fits-SameSlots p r fits same) tried)
                    (same_states u (pin u id key) (pin-states u id key))))
        ]
      ]
]

-- With or without an identity, `admit_affine` takes one free slot of the key that it gives, and no
-- other; when it gives none, each key holds as many slots as before. A key is taken to have fewer
-- than 2^32 slots, and the other threads to leave the slots as they are while the request waits.
pub admit_affine-AdmissionTakes :
    (p q : Pool) (timeout : ℕ) (identity : Option ℕ) (now : ℕ) (rounds : List Round)
    (adm : Admission)
    → Fits p
    → All Steady rounds
    → admit_affine p timeout identity now rounds ≡ some (q, adm)
    → AdmissionTakes p q adm
unfolding admit_affine
admit_affine-AdmissionTakes p q timeout none now rounds adm fits steady e =
    admit-AdmissionTakes p q timeout now rounds adm fits steady e
admit_affine-AdmissionTakes p q timeout (some id) now rounds adm fits steady e =
    let seen = (pinned_key p id).0 in
    let same = same_states p seen (pinned_key-states p id) in
    let fits' = Fits-SameSlots p seen fits same in
    AdmissionTakes-before p seen q adm same (elim (Option-cases (pinned_key p id).1) [
      | inl unpinned ↦
          admit_and_pin-AdmissionTakes seen q id timeout now rounds adm fits' steady (ground arith)
      | inr (key, pinned) ↦ elim (Option-cases (try_pinned seen id key now)) [
        | inl out ↦ absurd (ground arith)
        | inr ((r, true), tried) ↦
            AdmissionTakes-eq seen q r adm (admitted key) (ground arith)
              (try_pinned-PinnedTakes seen r id key now true fits' tried)
        | inr ((r, false), tried) ↦
            let same' = try_pinned-PinnedTakes seen r id key now false fits' tried in
            AdmissionTakes-before seen r q adm same' (
              admit_and_pin-AdmissionTakes r q id timeout now rounds adm
                (Fits-SameSlots seen r fits' same') steady (ground arith))
      ]
    ])
