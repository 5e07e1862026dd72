-- ===== src/Pool/Admit/Admitted.antt =====
-- src/pool.rs: which key `admit` may give.
use ollamux.Base.{
  ℕ, zero, suc, ◌≤◌, ◌≡◌, refl, ap, true, false, none, some, List, [], ◌∷◌, count, if◌then◌else◌,
  Bool-cases, Option-cases, inl, inr, ◌⊎◌, arith, subst,
}
use ollamux.Pool.{KeyState, Pool, observe, observe_key}
use ollamux.Pool.Select.{all_dead, candidates}
use ollamux.Pool.Select.Laws.{selectable, candidates_lem}
use ollamux.Pool.Admit.{
  Round, Reject, admitted, rejected, Waited, got, refused, full, timed_out, try_acquire, first_free,
  acquire_on, admit_among, admit, keys_dead, no_keys, queue_full, queued_too_long, classify_empty,
  outcome,
}

first_free-count :
    (p q : Pool) (keys : List ℕ) (key : ℕ)
    → first_free p keys ≡ some (q, some key)
    → 1 ≤ count key keys
unfolding first_free
first_free-count p q [] key e = absurd (ground arith)
first_free-count p q (k ∷ ks) key e = elim (Option-cases (try_acquire p k)) [
  | inl out ↦ absurd (ground arith)
  | inr ((r, true), found) ↦ ground arith
  | inr ((r, false), found) ↦ ground (arith, first_free-count p q ks key (ground arith))
]

acquire_on-outcome :
    (best key : ℕ) (result : Waited) → outcome best result ≡ admitted key → best ≡ key
acquire_on-outcome best key got e = ground arith
acquire_on-outcome best key (refused full) e = absurd (ground arith)
acquire_on-outcome best key (refused timed_out) e = absurd (ground arith)

admit_among-count :
    (p q : Pool) (keys : List ℕ) (timeout now : ℕ) (rounds : List Round) (key : ℕ)
    → admit_among p keys timeout now rounds ≡ some (q, admitted key)
    → 1 ≤ count key keys
unfolding admit_among classify_empty
admit_among-count p q [] timeout now rounds key e = elim (Bool-cases (all_dead p.states now).1) [
  | inl d ↦ absurd (ground arith)
  | inr d ↦ absurd (ground arith)
]
admit_among-count p q (best ∷ ks) timeout now rounds key e =
    elim (Option-cases (first_free p (best ∷ ks))) [
      | inl out ↦ absurd (ground arith)
      | inr ((r, some k), found) ↦
          subst (λ j. 1 ≤ count j (best ∷ ks)) (ground arith)
            (first_free-count p r (best ∷ ks) k found)
      | inr ((r, none), found) ↦ elim (Option-cases (acquire_on r best timeout now rounds)) [
        | inl out ↦ absurd (ground arith)
        | inr ((u, result), ran) ↦
            let same = acquire_on-outcome best key result (ground arith) in ground arith
      ]
    ]

pub observe_twice :
    (ks : KeyState) (now : ℕ) → observe_key (observe_key ks now) now ≡ observe_key ks now
unfolding observe_key observe
observe_twice ks now = ground arith

selectable-all_dead :
    (ss : List KeyState) (now i : ℕ) → selectable (all_dead ss now).0 now i ≡ selectable ss now i
unfolding all_dead observe_key
selectable-all_dead [] now i = refl
selectable-all_dead (ks ∷ ss) now zero = ground (arith, observe_twice ks now)
selectable-all_dead (ks ∷ ss) now (suc i) = ground (arith, selectable-all_dead ss now i)

all_dead-selectable :
    (ss : List KeyState) (now i : ℕ) → (all_dead ss now).1 ≡ true → selectable ss now i ≡ false
unfolding all_dead
all_dead-selectable [] now i e = refl
all_dead-selectable (ks ∷ ss) now zero e = ground arith
all_dead-selectable (ks ∷ ss) now (suc i) e =
    ground (arith, all_dead-selectable ss now i (ground arith))

pub List-cases :
    (xs : List KeyState) → (xs ≡ []) ⊎ (x : KeyState) × (rest : List KeyState) × (xs ≡ x ∷ rest)
List-cases [] = inl refl
List-cases (x ∷ rest) = inr (x, rest, refl)

-- `admit` with some key in the pool.
pub admit-eq :
    (p : Pool) (ks : KeyState) (rest : List KeyState) (timeout now : ℕ) (rounds : List Round)
    → p.states ≡ ks ∷ rest
    → let checked = all_dead p.states now in
      let seen = record p { states = checked.0 } in
      admit p timeout now rounds ≡ (
        if checked.1
        then some (seen, rejected keys_dead)
        else admit_among (candidates seen now).0 (candidates seen now).1 timeout now rounds)
unfolding admit
admit-eq p ks rest timeout now rounds e = ground arith

pub admit-empty :
    (p : Pool) (timeout now : ℕ) (rounds : List Round)
    → p.states ≡ []
    → admit p timeout now rounds ≡ some (p, rejected no_keys)
unfolding admit
admit-empty p timeout now rounds e = ground arith

-- A key that `admit` gives was selectable when it was called: it was up, or its cooldown had
-- passed. This holds also for a key whose slot was waited for.
pub admit-selectable :
    (p q : Pool) (timeout now : ℕ) (rounds : List Round) (key : ℕ)
    → admit p timeout now rounds ≡ some (q, admitted key)
    → selectable p.states now key ≡ true
admit-selectable p q timeout now rounds key e = elim (List-cases p.states) [
  | inl none_there ↦ absurd (ground (arith, admit-empty p timeout now rounds none_there))
  | inr (ks, rest, there) ↦
      let checked = all_dead p.states now in
      let seen = record p { states = checked.0 } in
      let found = candidates seen now in
      elim (Bool-cases checked.1) [
        | inl d ↦ absurd (ground (arith, admit-eq p ks rest timeout now rounds there))
        | inr alive ↦
            let among : admit_among found.0 found.1 timeout now rounds ≡ some (q, admitted key) =
              ground (arith, admit-eq p ks rest timeout now rounds there) in
            let member = admit_among-count found.0 q found.1 timeout now rounds key among in
            ground (arith, (candidates_lem seen now).0 key, selectable-all_dead p.states now key)
      ]
]

outcome-rejected :
    (best : ℕ) (result : Waited) (rej : Reject)
    → outcome best result ≡ rejected rej
    → (rej ≡ queue_full) ⊎ (rej ≡ queued_too_long)
outcome-rejected best got rej e = absurd (ground arith)
outcome-rejected best (refused full) rej e = inl (ground arith)
outcome-rejected best (refused timed_out) rej e = inr (ground arith)

admit_among-rejected :
    (p q : Pool) (keys : List ℕ) (timeout now : ℕ) (rounds : List Round) (rej : Reject) (i : ℕ)
    → 1 ≤ count i keys
    → admit_among p keys timeout now rounds ≡ some (q, rejected rej)
    → (rej ≡ queue_full) ⊎ (rej ≡ queued_too_long)
unfolding admit_among
admit_among-rejected p q [] timeout now rounds rej i h e = absurd (omega arith)
admit_among-rejected p q (best ∷ ks) timeout now rounds rej i h e =
    elim (Option-cases (first_free p (best ∷ ks))) [
      | inl out ↦ absurd (ground arith)
      | inr ((r, some k), found) ↦ absurd (ground arith)
      | inr ((r, none), found) ↦ elim (Option-cases (acquire_on r best timeout now rounds)) [
        | inl out ↦ absurd (ground arith)
        | inr ((u, result), ran) ↦ outcome-rejected best result rej (ground arith)
      ]
    ]

-- While some key is selectable, `admit` turns a request away only for overload: the wait queue is
-- full, or the request queued too long. It does not report missing, dead or cooling keys.
pub admit-rejected_by_load :
    (p q : Pool) (timeout now : ℕ) (rounds : List Round) (rej : Reject) (i : ℕ)
    → selectable p.states now i ≡ true
    → admit p timeout now rounds ≡ some (q, rejected rej)
    → (rej ≡ queue_full) ⊎ (rej ≡ queued_too_long)
admit-rejected_by_load p q timeout now rounds rej i up_now e = elim (List-cases p.states) [
  | inl none_there ↦ absurd (ground (arith, ap (λ ss. selectable ss now i) none_there))
  | inr (ks, rest, there) ↦
      let checked = all_dead p.states now in
      let seen = record p { states = checked.0 } in
      let found = candidates seen now in
      elim (Bool-cases checked.1) [
        | inl d ↦ absurd (ground (arith, all_dead-selectable p.states now i d))
        | inr alive ↦
            admit_among-rejected found.0 q found.1 timeout now rounds rej i
              (ground (arith, (candidates_lem seen now).0 i, selectable-all_dead p.states now i))
              (ground (arith, admit-eq p ks rest timeout now rounds there))
      ]
]
