-- ===== src/Proxy/Repeats/Reading.antt =====
-- src/pool.rs: reading the states of a pool twice at the same clock is reading them once.
use ollamux.Base.{ℕ, ◌≡◌, refl, ap, ◌∙◌, false, some, List, [], ◌∷◌, if◌then◌else◌, arith}
use ollamux.Pool.{KeyState, Pool, observe_key}
use ollamux.Pool.Select.{all_dead, observe_all, candidates}
use ollamux.Pool.Admit.{Round, rejected, admit_among, admit, keys_dead}
use ollamux.Pool.Admit.Admitted.{admit-eq, observe_twice}

observe_all-twice :
    (ss : List KeyState) (now : ℕ) → observe_all (observe_all ss now) now ≡ observe_all ss now
unfolding observe_all
observe_all-twice [] now = refl
observe_all-twice (ks ∷ ss) now = rw (observe_twice ks now, observe_all-twice ss now) refl

all_dead-observe_all :
    (ss : List KeyState) (now : ℕ)
    → all_dead (observe_all ss now) now ≡ (observe_all ss now, (all_dead ss now).1)
unfolding all_dead observe_all observe_key
all_dead-observe_all [] now = refl
all_dead-observe_all (ks ∷ ss) now =
    ground (arith, observe_twice ks now, all_dead-observe_all ss now)

all_dead-twice :
    (ss : List KeyState) (now : ℕ) → (all_dead (all_dead ss now).0 now).1 ≡ (all_dead ss now).1
unfolding all_dead observe_key
all_dead-twice [] now = refl
all_dead-twice (ks ∷ ss) now = ground (arith, observe_twice ks now, all_dead-twice ss now)

-- The pool with its states read.
abbrev pub observed : Pool → ℕ → Pool
observed p now = (candidates (record p { states = (all_dead p.states now).0 }) now).0

candidates-observed : (p : Pool) (now : ℕ) → candidates (candidates p now).0 now ≡ candidates p now
unfolding candidates
candidates-observed p now = rw (observe_all-twice p.states now) refl

observed-states :
    (p : Pool) (now : ℕ)
    → (all_dead (observed p now).states now ≡ ((observed p now).states, (all_dead p.states now).1))
unfolding candidates
observed-states p now =
    all_dead-observe_all (all_dead p.states now).0 now
    ∙ ap (λ b. (observe_all (all_dead p.states now).0 now, b)) (all_dead-twice p.states now)

-- Once its states are read, a pool admits from the same candidates at the same clock.
pub admit-observed :
    (p : Pool) (k : KeyState) (rest : List KeyState) (timeout now : ℕ) (rounds : List Round)
    → (observed p now).states ≡ k ∷ rest
    → (all_dead p.states now).1 ≡ false
    → let seen = record p { states = (all_dead p.states now).0 } in
      admit (observed p now) timeout now rounds
      ≡ admit_among (observed p now) (candidates seen now).1 timeout now rounds
admit-observed p k rest timeout now rounds there alive =
    let seen = record p { states = (all_dead p.states now).0 } in
    let again = observed-states p now in
    admit-eq (observed p now) k rest timeout now rounds there
    ∙ ap
        (λ c.
          if c.1
          then some (record (observed p now) { states = c.0 }, rejected keys_dead)
          else admit_among (candidates (record (observed p now) { states = c.0 }) now).0
              (candidates (record (observed p now) { states = c.0 }) now).1 timeout now rounds)
        again
    ∙ ap
        (λ b.
          if b
          then some (observed p now, rejected keys_dead)
          else admit_among (candidates (observed p now) now).0 (candidates (observed p now) now).1
              timeout now rounds)
        alive
    ∙ ap (λ c. admit_among c.0 c.1 timeout now rounds) (candidates-observed seen now)
