-- ===== src/Pool/Admit/Balance.antt =====
-- src/pool.rs: the slots over whole admissions, `admit` and `admit_affine`.
use ollamux.Base.{
  ℕ, zero, suc, ◌≡◌, refl, sym, ◌∙◌, Option, none, some, List, [], ◌∷◌, All, get_elem?, Bool-cases,
  Option-cases, inl, inr, arith, subst,
}
use ollamux.Pool.{KeyState, Pool, observe_key}
use ollamux.Pool.Select.{all_dead, observe_all, candidates}
use ollamux.Pool.Admit.{
  Round, Waited, got, refused, full, timed_out, Admission, admitted, rejected, acquire_on,
  first_free, outcome, classify_empty, admit_among, admit, keys_dead,
}
use ollamux.Pool.Admit.Admitted.{List-cases, admit-eq, admit-empty}
use ollamux.Pool.Admit.Held.{
  slots_of, Fits, SameSlots, SameSlots-trans, Fits-SameSlots, SameSlots-Takes,
}
use ollamux.Pool.Admit.Conservation.{
  Steady, WaitTakes, AdmissionTakes, first_free-Takes, acquire_on-Takes,
}

pub all_dead-slots :
    (ss : List KeyState) (now i : ℕ)
    → slots_of (get_elem? (all_dead ss now).0 i) ≡ slots_of (get_elem? ss i)
unfolding all_dead observe_key
all_dead-slots [] now i = refl
all_dead-slots (ks ∷ ss) now zero = ground arith
all_dead-slots (ks ∷ ss) now (suc i) = ground (arith, all_dead-slots ss now i)

pub observe_all-slots :
    (ss : List KeyState) (now i : ℕ)
    → slots_of (get_elem? (observe_all ss now) i) ≡ slots_of (get_elem? ss i)
unfolding observe_all observe_key
observe_all-slots [] now i = refl
observe_all-slots (ks ∷ ss) now zero = refl
observe_all-slots (ks ∷ ss) now (suc i) = observe_all-slots ss now i

classify_empty-AdmissionTakes :
    (p : Pool) (now : ℕ) → AdmissionTakes p (classify_empty p now).0 (classify_empty p now).1
unfolding classify_empty
classify_empty-AdmissionTakes p now = elim (Bool-cases (all_dead p.states now).1) [
  | inl d ↦ rw d (all_dead-slots p.states now)
  | inr d ↦ rw d (all_dead-slots p.states now)
]

outcome-AdmissionTakes :
    (p q : Pool) (best : ℕ) (result : Waited)
    → WaitTakes p q best result
    → AdmissionTakes p q (outcome best result)
outcome-AdmissionTakes p q best got takes = takes
outcome-AdmissionTakes p q best (refused full) same = same
outcome-AdmissionTakes p q best (refused timed_out) same = same

pub AdmissionTakes-before :
    (o p q : Pool) (adm : Admission)
    → SameSlots o p
    → AdmissionTakes p q adm
    → AdmissionTakes o q adm
AdmissionTakes-before o p q (admitted key) same takes = SameSlots-Takes o p q key same takes
AdmissionTakes-before o p q (rejected r) same kept = SameSlots-trans o p q same kept

pub AdmissionTakes-eq :
    (p q r : Pool) (a b : Admission)
    → ◌≡◌ {A = Option (Pool × Admission)} (some (r, b)) (some (q, a))
    → AdmissionTakes p r b
    → AdmissionTakes p q a
AdmissionTakes-eq p q r a b e takes =
    subst (λ x. AdmissionTakes p x a) {x = r} {y = q} (ground arith)
      (subst (AdmissionTakes p r) {x = b} {y = a} (ground arith) takes)

admit_among-AdmissionTakes :
    (p q : Pool) (keys : List ℕ) (timeout now : ℕ) (rounds : List Round) (adm : Admission)
    → Fits p
    → All Steady rounds
    → admit_among p keys timeout now rounds ≡ some (q, adm)
    → AdmissionTakes p q adm
unfolding admit_among
admit_among-AdmissionTakes p q [] timeout now rounds adm fits steady e =
    AdmissionTakes-eq p q (classify_empty p now).0 adm (classify_empty p now).1 e
      (classify_empty-AdmissionTakes p now)
admit_among-AdmissionTakes p q (best ∷ ks) timeout now rounds adm fits steady e =
    elim (Option-cases (first_free p (best ∷ ks))) [
      | inl out ↦ absurd (ground arith)
      | inr ((r, some k), found) ↦
          AdmissionTakes-eq p q r adm (admitted k) (ground arith)
            (first_free-Takes p r (best ∷ ks) (some k) fits found)
      | inr ((r, none), found) ↦
          let same = first_free-Takes p r (best ∷ ks) none fits found in
          elim (Option-cases (acquire_on r best timeout now rounds)) [
            | inl out ↦ absurd (ground arith)
            | inr ((u, result), ran) ↦ AdmissionTakes-before p r q adm same (
                AdmissionTakes-eq r q u adm (outcome best result) (ground arith) (
                  outcome-AdmissionTakes r u best result (
                    acquire_on-Takes r u best timeout now rounds result
                      (Fits-SameSlots p r fits same) steady ran)))
          ]
    ]

-- `admit` takes one free slot of the key that it gives, and no other; when it gives none, each key
-- holds as many slots as before. A key is taken to have fewer than 2^32 slots, and the other
-- threads to leave the slots as they are while the request waits.
pub admit-AdmissionTakes :
    (p q : Pool) (timeout now : ℕ) (rounds : List Round) (adm : Admission)
    → Fits p
    → All Steady rounds
    → admit p timeout now rounds ≡ some (q, adm)
    → AdmissionTakes p q adm
unfolding candidates
admit-AdmissionTakes p q timeout now rounds adm fits steady e = elim (List-cases p.states) [
  | inl nothing ↦
      AdmissionTakes-eq p q p adm _ (sym (admit-empty p timeout now rounds nothing) ∙ e) (λ i. refl)
  | inr (ks, rest, there) ↦
      let checked = all_dead p.states now in
      let seen = record p { states = checked.0 } in
      let found = candidates seen now in
      let opened = sym (admit-eq p ks rest timeout now rounds there) ∙ e in
      let same =
        SameSlots-trans p seen found.0 (all_dead-slots p.states now)
          (observe_all-slots checked.0 now) in
      elim (Bool-cases checked.1) [
        | inl d ↦
            AdmissionTakes-eq p q seen adm (rejected keys_dead) (ground arith)
              (all_dead-slots p.states now)
        | inr alive ↦ AdmissionTakes-before p found.0 q adm same (
            admit_among-AdmissionTakes found.0 q found.1 timeout now rounds adm
              (Fits-SameSlots p found.0 fits same) steady (ground arith))
      ]
]
