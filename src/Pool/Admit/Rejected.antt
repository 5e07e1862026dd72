-- ===== src/Pool/Admit/Rejected.antt =====
-- src/pool.rs: the statuses with which the pool turns a request away.
use ollamux.Base.{
  ℕ, ◌≡◌, refl, Bool, true, false, Option, none, some, ◌>>=◌, List, [], ◌∷◌, if◌then◌else◌,
  Bool-cases, inl, inr, ◌⊎◌, subst,
}
use ollamux.Pool.{Pool, pinned_key}
use ollamux.Pool.Select.{all_dead}
use ollamux.Pool.Admit.{
  Round, Reject, Admission, admitted, rejected, Waited, got, refused, full, timed_out, first_free,
  acquire_on, outcome, classify_empty, admit_among, admit, pin_admitted, admit_and_pin,
  admit_affine, try_pinned,
}
use ollamux.Pool.Admit.Admitted.{admit-eq, admit-empty, List-cases}

abbrev pub IsRejection : ℕ → Type 0
IsRejection status = (status ≡ 403) ⊎ ((status ≡ 429) ⊎ (status ≡ 503))

abbrev Proper : Admission → Type 0
Proper (admitted key) = Unit {0}
Proper (rejected rej) = IsRejection rej.status

outcome-Proper : (best : ℕ) (result : Waited) → Proper (outcome best result)
outcome-Proper best got = tt
outcome-Proper best (refused full) = inr (inl refl)
outcome-Proper best (refused timed_out) = inr (inl refl)

abbrev AllProper : Option (Pool × Admission) → Type 0
AllProper none = Unit {0}
AllProper (some r) = Proper r.1

classify_empty-Proper : (p : Pool) (now : ℕ) → Proper (classify_empty p now).1
unfolding classify_empty
classify_empty-Proper p now = elim (Bool-cases (all_dead p.states now).1) [
  | inl d ↦ rw d (inl refl)
  | inr d ↦ rw d (inr (inl refl))
]

waited-AllProper :
    (best : ℕ) (o : Option (Pool × Waited))
    → AllProper (◌>>=◌ {B = Pool × Admission} o (λ (r, result). some (r, outcome best result)))
waited-AllProper best none = tt
waited-AllProper best (some (r, result)) = outcome-Proper best result

free-AllProper :
    (best timeout now : ℕ) (rounds : List Round) (o : Option (Pool × Option ℕ))
    → AllProper (
        ◌>>=◌ {B = Pool × Admission} o (λ (q, free). elim free [
          | some key ↦ some (q, admitted key)
          | none ↦
              acquire_on q best timeout now rounds >>= λ (r, result). some (r, outcome best result)
        ]))
free-AllProper best timeout now rounds none = tt
free-AllProper best timeout now rounds (some (q, some key)) = tt
free-AllProper best timeout now rounds (some (q, none)) =
    waited-AllProper best (acquire_on q best timeout now rounds)

admit_among-AllProper :
    (p : Pool) (keys : List ℕ) (timeout now : ℕ) (rounds : List Round)
    → AllProper (admit_among p keys timeout now rounds)
unfolding admit_among
admit_among-AllProper p [] timeout now rounds = classify_empty-Proper p now
admit_among-AllProper p (best ∷ others) timeout now rounds =
    free-AllProper best timeout now rounds (first_free p (best ∷ others))

admit-AllProper :
    (p : Pool) (timeout now : ℕ) (rounds : List Round) → AllProper (admit p timeout now rounds)
admit-AllProper p timeout now rounds = elim (List-cases p.states) [
  | inl nothing ↦ rw (admit-empty p timeout now rounds nothing) (inr (inr refl))
  | inr (ks, rest, there) ↦
      rw (admit-eq p ks rest timeout now rounds there)
        (elim (Bool-cases (all_dead p.states now).1) [
          | inl d ↦ rw d (inl refl)
          | inr d ↦ rw d (admit_among-AllProper _ _ timeout now rounds)
        ])
]

pinned-AllProper :
    (id : ℕ) (o : Option (Pool × Admission))
    → AllProper o
    → AllProper (◌>>=◌ {B = Pool × Admission} o (λ r. some (pin_admitted id r)))
pinned-AllProper id none h = tt
pinned-AllProper id (some (q, admitted key)) h = tt
pinned-AllProper id (some (q, rejected rej)) h = h

admit_and_pin-AllProper :
    (p : Pool) (id timeout now : ℕ) (rounds : List Round)
    → AllProper (admit_and_pin p id timeout now rounds)
unfolding admit_and_pin
admit_and_pin-AllProper p id timeout now rounds =
    pinned-AllProper id (admit p timeout now rounds) (admit-AllProper p timeout now rounds)

served-AllProper :
    (id key timeout now : ℕ) (rounds : List Round) (o : Option (Pool × Bool))
    → AllProper (
        ◌>>=◌ {B = Pool × Admission} o (λ (r, served).
          if served then some (r, admitted key) else admit_and_pin r id timeout now rounds))
served-AllProper id key timeout now rounds none = tt
served-AllProper id key timeout now rounds (some (r, true)) = tt
served-AllProper id key timeout now rounds (some (r, false)) =
    admit_and_pin-AllProper r id timeout now rounds

pin-AllProper :
    (id timeout now : ℕ) (rounds : List Round) (q : Pool) (pinned : Option ℕ)
    → AllProper (elim pinned [
      | none ↦ admit_and_pin q id timeout now rounds
      | some key ↦ try_pinned q id key now >>= λ (r, served).
          if served then some (r, admitted key) else admit_and_pin r id timeout now rounds
    ])
pin-AllProper id timeout now rounds q none = admit_and_pin-AllProper q id timeout now rounds
pin-AllProper id timeout now rounds q (some key) =
    served-AllProper id key timeout now rounds (try_pinned q id key now)

admit_affine-AllProper :
    (p : Pool) (timeout : ℕ) (identity : Option ℕ) (now : ℕ) (rounds : List Round)
    → AllProper (admit_affine p timeout identity now rounds)
unfolding admit_affine
admit_affine-AllProper p timeout none now rounds = admit-AllProper p timeout now rounds
admit_affine-AllProper p timeout (some id) now rounds =
    pin-AllProper id timeout now rounds (pinned_key p id).0 (pinned_key p id).1

pub admit-IsRejection :
    (p q : Pool) (timeout now : ℕ) (rounds : List Round) (rej : Reject)
    → admit p timeout now rounds ≡ some (q, rejected rej)
    → IsRejection rej.status
admit-IsRejection p q timeout now rounds rej e =
    subst AllProper e (admit-AllProper p timeout now rounds)

pub admit_affine-IsRejection :
    (p q : Pool) (timeout : ℕ) (identity : Option ℕ) (now : ℕ) (rounds : List Round) (rej : Reject)
    → admit_affine p timeout identity now rounds ≡ some (q, rejected rej)
    → IsRejection rej.status
admit_affine-IsRejection p q timeout identity now rounds rej e =
    subst AllProper e (admit_affine-AllProper p timeout identity now rounds)
