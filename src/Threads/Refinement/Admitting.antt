-- ===== src/Threads/Refinement/Admitting.antt =====
-- src/pool.rs: an admission is a run of a thread.
use ollamux.Base.{
  ℕ, ◌≡◌, refl, Bool, true, false, not, ◌&&◌, Option, none, some, ◌>>=◌, List, [], ◌∷◌, All,
  get_elem?, if◌then◌else◌, Bool-cases, inl, inr,
}
use ollamux.Pool.{KeyState, Pool, modify, observe_key, pinned_key, pin}
use ollamux.Pool.Quota.{is_over_quota}
use ollamux.Pool.Select.{all_dead, observe_all, candidates, is_up}
use ollamux.Pool.Admit.{
  Round, Admission, admitted, rejected, Waited, try_acquire, acquire_on, first_free, outcome,
  classify_empty, admit_among, admit, state_up, try_pinned, pin_admitted, admit_and_pin,
  admit_affine,
}
use ollamux.Pool.Admit.Admitted.{admit-eq, admit-empty, List-cases}
use ollamux.Threads.{Pc, admitting, attempting, reads, recalls, rejects, takes, misses, pins}
use ollamux.Threads.Refinement.{Run, stays, goes, Run-trans, after, RoundWithin}
use ollamux.Threads.Refinement.Reading.{all_dead-Seen, observe_all-Seen, with_states, Seen-Run}
use ollamux.Threads.Refinement.Waiting.{Frees, first_free-Frees, Acquires, acquire_on-Acquires}

module _ (Others : Pool → Pool → Type 0) where
  -- The end of an admission, if it ends.
  abbrev pub Admits : Pool → ℕ → Option (Pool × Admission) → Type 0
  Admits p n none = Unit {0}
  Admits p n (some (q, a)) = Run Others p (admitting n) q (after n a)

  pub Admits-after :
      (p q : Pool) (n : ℕ) (o : Option (Pool × Admission))
      → Run Others p (admitting n) q (admitting n)
      → Admits q n o
      → Admits p n o
  Admits-after p q n none run h = tt
  Admits-after p q n (some (r, admitted key)) run h = Run-trans run h
  Admits-after p q n (some (r, rejected rej)) run h = Run-trans run h

  read_dead :
      (p : Pool) (n now : ℕ)
      → Run Others p (admitting n) (with_states p (all_dead p.states now).0) (admitting n)
  read_dead p n now = Seen-Run Others p n now (all_dead p.states now).0 (all_dead-Seen now p.states)

  classify_empty-Admits : (p : Pool) (n now : ℕ) → Admits p n (some (classify_empty p now))
  unfolding classify_empty
  classify_empty-Admits p n now = elim (Bool-cases (all_dead p.states now).1) [
    | inl d ↦ rw d (goes (read_dead p n now) rejects)
    | inr d ↦ rw d (goes (read_dead p n now) rejects)
  ]

  acquired-Admits :
      (p q : Pool) (n best : ℕ) (o : Option (Pool × Waited))
      → Run Others p (admitting n) q (admitting n)
      → Acquires Others q n best o
      → Admits p n (◌>>=◌ {B = Pool × Admission} o (λ (r, result). some (r, outcome best result)))
  acquired-Admits p q n best none run h = tt
  acquired-Admits p q n best (some (r, result)) run h = Run-trans run h

  free-Admits :
      (p : Pool) (n best timeout now : ℕ) (rounds : List Round) (o : Option (Pool × Option ℕ))
      → All (RoundWithin Others) rounds
      → Frees Others p n o
      → Admits p n (
          ◌>>=◌ {B = Pool × Admission} o (λ (q, free). elim free [
            | some key ↦ some (q, admitted key)
            | none ↦ acquire_on q best timeout now rounds >>= λ (r, result).
                some (r, outcome best result)
          ]))
  free-Admits p n best timeout now rounds none h f = tt
  free-Admits p n best timeout now rounds (some (q, some key)) h f = f
  free-Admits p n best timeout now rounds (some (q, none)) h f =
      acquired-Admits p q n best (acquire_on q best timeout now rounds) f
        (acquire_on-Acquires Others q n best timeout now rounds h)

  admit_among-Admits :
      (p : Pool) (n : ℕ) (keys : List ℕ) (timeout now : ℕ) (rounds : List Round)
      → All (RoundWithin Others) rounds
      → Admits p n (admit_among p keys timeout now rounds)
  unfolding admit_among
  admit_among-Admits p n [] timeout now rounds h = classify_empty-Admits p n now
  admit_among-Admits p n (best ∷ others) timeout now rounds h =
      free-Admits p n best timeout now rounds (first_free p (best ∷ others)) h
        (first_free-Frees Others p n (best ∷ others))

  candidates-Run :
      (p : Pool) (n now : ℕ) → Run Others p (admitting n) (candidates p now).0 (admitting n)
  unfolding candidates
  candidates-Run p n now =
      Seen-Run Others p n now (observe_all p.states now) (observe_all-Seen now p.states)

  pub admit-Admits :
      (p : Pool) (n timeout now : ℕ) (rounds : List Round)
      → All (RoundWithin Others) rounds
      → Admits p n (admit p timeout now rounds)
  admit-Admits p n timeout now rounds h = elim (List-cases p.states) [
    | inl nothing ↦ rw (admit-empty p timeout now rounds nothing) (goes stays rejects)
    | inr (ks, rest, there) ↦
        let seen = with_states p (all_dead p.states now).0 in
        rw (admit-eq p ks rest timeout now rounds there)
          (elim (Bool-cases (all_dead p.states now).1) [
            | inl d ↦ rw d (goes (read_dead p n now) rejects)
            | inr d ↦ rw d (
                Admits-after p (candidates seen now).0 n
                  (admit_among (candidates seen now).0 (candidates seen now).1 timeout now rounds)
                  (Run-trans (read_dead p n now) (candidates-Run seen n now))
                  (admit_among-Admits (candidates seen now).0 n (candidates seen now).1 timeout now
                    rounds h))
          ])
  ]

  pinned-Admits :
      (p : Pool) (n id : ℕ) (o : Option (Pool × Admission))
      → Admits p n o
      → Admits p n (◌>>=◌ {B = Pool × Admission} o (λ r. some (pin_admitted id r)))
  pinned-Admits p n id none h = tt
  pinned-Admits p n id (some (q, admitted key)) h = goes h (pins (some id))
  pinned-Admits p n id (some (q, rejected rej)) h = h

  admit_and_pin-Admits :
      (p : Pool) (n id timeout now : ℕ) (rounds : List Round)
      → All (RoundWithin Others) rounds
      → Admits p n (admit_and_pin p id timeout now rounds)
  unfolding admit_and_pin
  admit_and_pin-Admits p n id timeout now rounds h =
      pinned-Admits p n id (admit p timeout now rounds) (admit-Admits p n timeout now rounds h)

  -- The try of a pinned key: a slot of it, or none.
  abbrev served_at : ℕ → ℕ → Bool → Pc
  served_at n key true = attempting n key
  served_at n key false = admitting n

  abbrev Serves : Pool → ℕ → ℕ → Option (Pool × Bool) → Type 0
  Serves p n key none = Unit {0}
  Serves p n key (some (q, served)) = Run Others p (admitting n) q (served_at n key served)

  abbrev Reads : Pool → ℕ → Option (Pool × Bool) → Type 0
  Reads p n none = Unit {0}
  Reads p n (some (q, is_selectable)) = Run Others p (admitting n) q (admitting n)

  observed-Reads :
      (p : Pool) (n key now : ℕ) (up_now : Bool) (o : Option Pool)
      → modify p key (λ s. observe_key s now) ≡ o
      → Reads p n (◌>>=◌ {B = Pool × Bool} o (λ q. some (q, up_now)))
  observed-Reads p n key now up_now none e = tt
  observed-Reads p n key now up_now (some q) e = goes stays (reads key now e)

  found-Reads :
      (p : Pool) (n key now : ℕ) (o : Option KeyState)
      → Reads p n (
          ◌>>=◌ {B = Pool × Bool} o (λ ks. modify p key (λ s. observe_key s now) >>= λ q.
          some (q, is_up (observe_key ks now).health.state)))
  found-Reads p n key now none = tt
  found-Reads p n key now (some ks) =
      observed-Reads p n key now (is_up (observe_key ks now).health.state)
        (modify p key (λ s. observe_key s now)) refl

  state_up-Reads : (p : Pool) (n key now : ℕ) → Reads p n (state_up p key now)
  unfolding state_up
  state_up-Reads p n key now = found-Reads p n key now (get_elem? p.states key)

  slot-Serves :
      (p q : Pool) (n id key : ℕ) (o : Option (Pool × Bool))
      → Run Others p (admitting n) q (admitting n)
      → try_acquire q key ≡ o
      → Serves p n key (
          ◌>>=◌ {B = Pool × Bool} o
            (λ (r, free). if free then some (pin r id key, true) else some (r, false)))
  slot-Serves p q n id key none run e = tt
  slot-Serves p q n id key (some (r, true)) run e = goes (goes run (takes e)) (pins (some id))
  slot-Serves p q n id key (some (r, false)) run e = goes run (misses key e)

  usable-Serves :
      (p q : Pool) (n id key : ℕ) (usable : Bool)
      → Run Others p (admitting n) q (admitting n)
      → Serves p n key (
          if usable
          then (try_acquire q key >>= λ (r, free).
              if free then some (pin r id key, true) else some (r, false))
          else some (q, false))
  usable-Serves p q n id key true run = slot-Serves p q n id key (try_acquire q key) run refl
  usable-Serves p q n id key false run = run

  read-Serves :
      (p : Pool) (n id key : ℕ) (o : Option (Pool × Bool))
      → Reads p n o
      → Serves p n key (
          ◌>>=◌ {B = Pool × Bool} o (λ (q, is_selectable).
            if is_selectable && not (is_over_quota q key)
            then (try_acquire q key >>= λ (r, free).
                if free then some (pin r id key, true) else some (r, false))
            else some (q, false)))
  read-Serves p n id key none run = tt
  read-Serves p n id key (some (q, is_selectable)) run =
      usable-Serves p q n id key (is_selectable && not (is_over_quota q key)) run

  try_pinned-Serves : (p : Pool) (n id key now : ℕ) → Serves p n key (try_pinned p id key now)
  unfolding try_pinned
  try_pinned-Serves p n id key now =
      read-Serves p n id key (state_up p key now) (state_up-Reads p n key now)

  served-Admits :
      (p : Pool) (n id key timeout now : ℕ) (rounds : List Round) (o : Option (Pool × Bool))
      → All (RoundWithin Others) rounds
      → Serves p n key o
      → Admits p n (
          ◌>>=◌ {B = Pool × Admission} o (λ (r, served).
            if served then some (r, admitted key) else admit_and_pin r id timeout now rounds))
  served-Admits p n id key timeout now rounds none h s = tt
  served-Admits p n id key timeout now rounds (some (r, true)) h s = s
  served-Admits p n id key timeout now rounds (some (r, false)) h s =
      Admits-after p r n (admit_and_pin r id timeout now rounds) s
        (admit_and_pin-Admits r n id timeout now rounds h)

  pin-Admits :
      (q : Pool) (n id timeout now : ℕ) (rounds : List Round) (pinned : Option ℕ)
      → All (RoundWithin Others) rounds
      → Admits q n (elim pinned [
        | none ↦ admit_and_pin q id timeout now rounds
        | some key ↦ try_pinned q id key now >>= λ (r, served).
            if served then some (r, admitted key) else admit_and_pin r id timeout now rounds
      ])
  pin-Admits q n id timeout now rounds none h = admit_and_pin-Admits q n id timeout now rounds h
  pin-Admits q n id timeout now rounds (some key) h =
      served-Admits q n id key timeout now rounds (try_pinned q id key now) h
        (try_pinned-Serves q n id key now)

  pub admit_affine-Admits :
      (p : Pool) (n timeout : ℕ) (identity : Option ℕ) (now : ℕ) (rounds : List Round)
      → All (RoundWithin Others) rounds
      → Admits p n (admit_affine p timeout identity now rounds)
  unfolding admit_affine
  admit_affine-Admits p n timeout none now rounds h = admit-Admits p n timeout now rounds h
  admit_affine-Admits p n timeout (some id) now rounds h =
      Admits-after p (pinned_key p id).0 n _ (goes stays (recalls id))
        (pin-Admits (pinned_key p id).0 n id timeout now rounds (pinned_key p id).1 h)
