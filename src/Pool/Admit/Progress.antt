-- ===== src/Pool/Admit/Progress.antt =====
-- src/pool.rs: `admit` and `admit_affine` come to an end.
use ollamux.Base.{
  ℕ, ◌+◌, ◌≤◌, ◌<◌, ◌≡◌, refl, ap, ◌∙◌, Bool, true, false, Option, none, some, ◌>>=◌, List, [], ◌∷◌,
  All, count, set, if◌then◌else◌, Bool-cases, Option-cases, inl, inr, arith, length, lt-get_elem?,
  not, ◌&&◌,
}
use ollamux.Pool.{Pool, observe_key, pin, pinned_key}
use ollamux.Pool.Quota.{is_over_quota}
use ollamux.Pool.Select.{is_up, all_dead, candidates}
use ollamux.Pool.Select.Laws.{candidates_lem, selectable-lt}
use ollamux.Pool.Admit.{
  Round, admitted, rejected, first_free, outcome, classify_empty, admit_among, admit, keys_dead,
  no_keys, state_up, try_pinned, pin_admitted, admit_and_pin, admit_affine,
}
use ollamux.Pool.Admit.Slots.{Ends}
use ollamux.Pool.Admit.Admitted.{List-cases, admit-eq, admit-empty}
use ollamux.Pool.Admit.Held.{
  slots_of, Fits, SameSlots, same_states, SameSlots-trans, Fits-SameSlots,
}
use ollamux.Pool.Admit.Conservation.{Steady, first_free-Takes}
use ollamux.Pool.Admit.Balance.{all_dead-slots, observe_all-slots}
use ollamux.Pool.Admit.Affine.{
  PinnedTakes, pinned_key-states, state_up-SameSlots, try_pinned-PinnedTakes,
}
use ollamux.Pool.Admit.Returns.{
  InRange, InRange-found, InRange-SameSlots, Returns, try_acquire-Returns, acquire_on-Returns,
}

-- Every key of the list is in range.
abbrev AllInRange : Pool → List ℕ → Type 0
AllInRange p keys = (key : ℕ) → 1 ≤ count key keys → InRange p key

first_free-Returns : (p : Pool) (keys : List ℕ) → AllInRange p keys → Returns (first_free p keys)
unfolding first_free
first_free-Returns p [] inside = ((p, none), refl)
first_free-Returns p (k ∷ ks) inside =
    let ((q, free), tried) = try_acquire-Returns p k (inside k (ground arith)) in
    elim (Bool-cases free) [
      | inl given ↦ ((q, some k), rw (tried, given) refl)
      | inr none_free ↦
          rw (tried, none_free) (first_free-Returns p ks (λ key h. inside key (ground arith)))
    ]

admit_among-Returns :
    (p : Pool) (keys : List ℕ) (timeout now : ℕ) (rounds : List Round)
    → Fits p
    → All Steady rounds
    → Ends (now + timeout) rounds
    → AllInRange p keys
    → Returns (admit_among p keys timeout now rounds)
unfolding admit_among
admit_among-Returns p [] timeout now rounds fits steady ends inside = (classify_empty p now, refl)
admit_among-Returns p (best ∷ ks) timeout now rounds fits steady ends inside =
    let ((q, free), tried) = first_free-Returns p (best ∷ ks) inside in
    elim (Option-cases free) [
      | inr (key, given) ↦
          ((q, admitted key), rw (tried ∙ ap (λ (f : Option ℕ). some (q, f)) given) refl)
      | inl none_free ↦
          let tried' : first_free p (best ∷ ks) ≡ some (q, none) =
            tried ∙ ap (λ f. some (q, f)) none_free in
          let same = first_free-Takes p q (best ∷ ks) none fits tried' in
          let ((r, result), ran) =
            acquire_on-Returns q best timeout now rounds (Fits-SameSlots p q fits same) steady ends
              (InRange-SameSlots p q best (inside best (ground arith)) same) in
          ((r, outcome best result), rw (tried', ran) refl)
    ]

lt-InRange : (p : Pool) (key : ℕ) → key < length p.states → InRange p key
lt-InRange p key h =
    let (ks, found) = lt-get_elem? p.states key h in ((ks.held, ks.concurrency), ap slots_of found)

-- `admit` comes to an end, if the clock passes the deadline in one of the rounds of a wait.
pub admit-Returns :
    (p : Pool) (timeout now : ℕ) (rounds : List Round)
    → Fits p
    → All Steady rounds
    → Ends (now + timeout) rounds
    → Returns (admit p timeout now rounds)
unfolding candidates
admit-Returns p timeout now rounds fits steady ends = elim (List-cases p.states) [
  | inl nothing ↦ ((p, rejected no_keys), admit-empty p timeout now rounds nothing)
  | inr (ks, rest, there) ↦
      let checked = all_dead p.states now in
      let seen = record p { states = checked.0 } in
      let found = candidates seen now in
      let same =
        SameSlots-trans p seen found.0 (all_dead-slots p.states now)
          (observe_all-slots checked.0 now) in
      elim (Bool-cases checked.1) [
        | inl d ↦ (
          (seen, rejected keys_dead),
          admit-eq p ks rest timeout now rounds there
              ∙ ap
                  (λ b.
                    if b
                    then some (seen, rejected keys_dead)
                    else admit_among found.0 found.1 timeout now rounds)
                  d,
        )
        | inr alive ↦
            let (r, ran) =
              admit_among-Returns found.0 found.1 timeout now rounds
                (Fits-SameSlots p found.0 fits same) steady ends
                (λ key h.
                  InRange-SameSlots seen found.0 key
                    (lt-InRange seen key (
                      selectable-lt checked.0 now key
                        (ground (arith, (candidates_lem seen now).0 key))))
                    (observe_all-slots checked.0 now)) in
            (
              r,
              admit-eq p ks rest timeout now rounds there
                  ∙ ap
                      (λ b.
                        if b
                        then some (seen, rejected keys_dead)
                        else admit_among found.0 found.1 timeout now rounds)
                      alive
                  ∙ ran,
            )
      ]
]

admit_and_pin-Returns :
    (p : Pool) (id timeout now : ℕ) (rounds : List Round)
    → Fits p
    → All Steady rounds
    → Ends (now + timeout) rounds
    → Returns (admit_and_pin p id timeout now rounds)
unfolding admit_and_pin
admit_and_pin-Returns p id timeout now rounds fits steady ends =
    let (r, ran) = admit-Returns p timeout now rounds fits steady ends in
    (pin_admitted id r, rw ran refl)

pub state_up-Returns : (p : Pool) (key now : ℕ) → InRange p key → Returns (state_up p key now)
unfolding state_up
state_up-Returns p key now inside =
    let (ks, found) = InRange-found p key inside in
    (
      (
        record p { states = set p.states key (observe_key ks now) },
        is_up (observe_key ks now).health.state,
      ),
      rw found refl,
    )

try_pinned-Returns : (p : Pool) (id key now : ℕ) → InRange p key → Returns (try_pinned p id key now)
unfolding try_pinned
try_pinned-Returns p id key now inside =
    let ((q, is_selectable), seen) = state_up-Returns p key now inside in
    let inside' =
      InRange-SameSlots p q key inside (state_up-SameSlots p q key now is_selectable seen) in
    elim (Bool-cases (is_selectable && not (is_over_quota q key))) [
      | inr unfit ↦ ((q, false), rw (seen, unfit) refl)
      | inl fit ↦
          let ((r, free), tried) = try_acquire-Returns q key inside' in
          elim (Bool-cases free) [
            | inl given ↦ ((pin r id key, true), rw (seen, fit, tried, given) refl)
            | inr none_free ↦ ((r, false), rw (seen, fit, tried, none_free) refl)
          ]
    ]

-- The pin of the conversation, if it has one, is to a key of the pool.
abbrev pub PinInRange : Pool → Option ℕ → Type 0
PinInRange p none = Unit {0}
PinInRange p (some id) = (key : ℕ) → (pinned_key p id).1 ≡ some key → InRange p key

admit_affine-free :
    (p : Pool) (timeout now : ℕ) (rounds : List Round)
    → admit_affine p timeout none now rounds ≡ admit p timeout now rounds
unfolding admit_affine
admit_affine-free p timeout now rounds = refl

admit_affine-unpinned :
    (p : Pool) (timeout id now : ℕ) (rounds : List Round)
    → (pinned_key p id).1 ≡ none
    → admit_affine p timeout (some id) now rounds
      ≡ admit_and_pin (pinned_key p id).0 id timeout now rounds
unfolding admit_affine
admit_affine-unpinned p timeout id now rounds e = ground arith

admit_affine-pinned :
    (p : Pool) (timeout id key now : ℕ) (rounds : List Round)
    → (pinned_key p id).1 ≡ some key
    → admit_affine p timeout (some id) now rounds ≡ (
        try_pinned (pinned_key p id).0 id key now >>= λ (r, served).
        if served then some (r, admitted key) else admit_and_pin r id timeout now rounds)
unfolding admit_affine
admit_affine-pinned p timeout id key now rounds e = ground arith

PinnedTakes-refused :
    (p q : Pool) (key : ℕ) (served : Bool)
    → served ≡ false
    → PinnedTakes p q key served
    → SameSlots p q
PinnedTakes-refused p q key true e takes = absurd (ground arith)
PinnedTakes-refused p q key false e same = same

pub admit_affine-Returns :
    (p : Pool) (timeout : ℕ) (identity : Option ℕ) (now : ℕ) (rounds : List Round)
    → Fits p
    → All Steady rounds
    → Ends (now + timeout) rounds
    → PinInRange p identity
    → Returns (admit_affine p timeout identity now rounds)
admit_affine-Returns p timeout none now rounds fits steady ends pins =
    rw (admit_affine-free p timeout now rounds)
      (admit-Returns p timeout now rounds fits steady ends)
admit_affine-Returns p timeout (some id) now rounds fits steady ends pins =
    let seen = (pinned_key p id).0 in
    let same = same_states p seen (pinned_key-states p id) in
    let fits' = Fits-SameSlots p seen fits same in
    elim (Option-cases (pinned_key p id).1) [
      | inl unpinned ↦
          rw (admit_affine-unpinned p timeout id now rounds unpinned)
            (admit_and_pin-Returns seen id timeout now rounds fits' steady ends)
      | inr (key, pinned) ↦
          let ((r, served), tried) =
            try_pinned-Returns seen id key now
              (InRange-SameSlots p seen key (pins key pinned) same) in
          elim (Bool-cases served) [
            | inl yes_served ↦ (
              (r, admitted key),
              rw (admit_affine-pinned p timeout id key now rounds pinned, tried, yes_served) refl,
            )
            | inr not_served ↦
                let same' =
                  PinnedTakes-refused seen r key served not_served
                    (try_pinned-PinnedTakes seen r id key now served fits' tried) in
                rw (admit_affine-pinned p timeout id key now rounds pinned, tried, not_served)
                  (admit_and_pin-Returns r id timeout now rounds (Fits-SameSlots seen r fits' same')
                    steady ends)
          ]
    ]
