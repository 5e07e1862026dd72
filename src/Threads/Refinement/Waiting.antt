-- ===== src/Threads/Refinement/Waiting.antt =====
-- src/pool.rs: taking a slot, at once or after a wait, is a run of a thread.
use ollamux.Base.{
  ℕ, ◌+◌, ◌≡◌, refl, subst, Bool, true, false, Option, none, some, ◌>>=◌, List, [], ◌∷◌, All, leb,
  if◌then◌else◌,
}
use ollamux.Pool.{Pool}
use ollamux.Pool.Admit.{
  Round, Waited, got, refused, full, timed_out, try_acquire, enter_wait, leave_wait, wait_loop,
  acquire_on, first_free, outcome,
}
use ollamux.Threads.{
  Pc, idle, admitting, waiting, granted, attempting, takes, enters, overflows, wins, times_out,
  leaves,
}
use ollamux.Threads.Effects.{enter_wait-refused}
use ollamux.Threads.Refinement.{Run, stays, goes, yields, Run-trans, after, RoundWithin}

abbrev pub found : ℕ → Option ℕ → Pc
found n none = admitting n
found n (some key) = attempting n key

abbrev waited : ℕ → ℕ → Waited → Pc
waited n key got = granted n key
waited n key (refused why) = waiting n key

module _ (Others : Pool → Pool → Type 0) where
  abbrev pub Frees : Pool → ℕ → Option (Pool × Option ℕ) → Type 0
  Frees p n none = Unit {0}
  Frees p n (some (q, free)) = Run Others p (admitting n) q (found n free)

  try-Frees :
      (p : Pool) (n key : ℕ) (rest : Option (Pool × Option ℕ)) (o : Option (Pool × Bool))
      → try_acquire p key ≡ o
      → Frees p n rest
      → Frees p n
          (◌>>=◌ {B = Pool × Option ℕ} o (λ (q, free). if free then some (q, some key) else rest))
  try-Frees p n key rest none e h = tt
  try-Frees p n key rest (some (q, true)) e h = goes stays (takes e)
  try-Frees p n key rest (some (q, false)) e h = h

  pub first_free-Frees : (p : Pool) (n : ℕ) (keys : List ℕ) → Frees p n (first_free p keys)
  unfolding first_free
  first_free-Frees p n [] = stays
  first_free-Frees p n (key ∷ keys) =
      try-Frees p n key (first_free p keys) (try_acquire p key) refl (first_free-Frees p n keys)

  abbrev Waits : Pool → ℕ → ℕ → Option (Pool × Waited) → Type 0
  Waits p n key none = Unit {0}
  Waits p n key (some (q, w)) = Run Others p (waiting n key) q (waited n key w)

  Waits-later :
      (p q : Pool) (n key : ℕ) (o : Option (Pool × Waited))
      → Others p q
      → Waits q n key o
      → Waits p n key o
  Waits-later p q n key none h w = tt
  Waits-later p q n key (some (r, got)) h w = Run-trans (yields stays h) w
  Waits-later p q n key (some (r, refused why)) h w = Run-trans (yields stays h) w

  last-Waits :
      (p : Pool) (n key : ℕ) (o : Option (Pool × Bool))
      → try_acquire p key ≡ o
      → Waits p n key
          (◌>>=◌ {B = Pool × Waited} o (λ (q, free). if free then some (q, got) else none))
  last-Waits p n key none e = tt
  last-Waits p n key (some (q, true)) e = goes stays (wins e)
  last-Waits p n key (some (q, false)) e = tt

  late-Waits :
      (p : Pool) (n key : ℕ) (late : Bool) (rest : Option (Pool × Waited))
      → Waits p n key rest
      → Waits p n key (if late then some (p, refused timed_out) else rest)
  late-Waits p n key true rest h = stays
  late-Waits p n key false rest h = h

  round-Waits :
      (p : Pool) (n key : ℕ) (late : Bool) (rest : Option (Pool × Waited))
      (o : Option (Pool × Bool))
      → try_acquire p key ≡ o
      → Waits p n key rest
      → Waits p n key (
          ◌>>=◌ {B = Pool × Waited} o (λ (q, free).
            if free then some (q, got) else (if late then some (p, refused timed_out) else rest)))
  round-Waits p n key late rest none e h = tt
  round-Waits p n key late rest (some (q, true)) e h = goes stays (wins e)
  round-Waits p n key late rest (some (q, false)) e h = late-Waits p n key late rest h

  wait_loop-Waits :
      (p : Pool) (n key deadline : ℕ) (rounds : List Round)
      → All (RoundWithin Others) rounds
      → Waits p n key (wait_loop key deadline rounds p)
  unfolding wait_loop
  wait_loop-Waits p n key deadline [] h = last-Waits p n key (try_acquire p key) refl
  wait_loop-Waits p n key deadline (r ∷ rs) (h, hs) =
      round-Waits p n key (leb deadline r.now) (wait_loop key deadline rs (r.others p))
        (try_acquire p key) refl
        (Waits-later p (r.others p) n key (wait_loop key deadline rs (r.others p)) (h p)
          (wait_loop-Waits (r.others p) n key deadline rs hs))

  abbrev pub Acquires : Pool → ℕ → ℕ → Option (Pool × Waited) → Type 0
  Acquires p n key none = Unit {0}
  Acquires p n key (some (q, w)) = Run Others p (admitting n) q (after n (outcome key w))

  leave-Acquires :
      (p r : Pool) (n key : ℕ) (result : Waited) (o : Option Pool)
      → leave_wait r key ≡ o
      → Run Others p (admitting n) r (waited n key result)
      → Acquires p n key (◌>>=◌ {B = Pool × Waited} o (λ s. some (s, result)))
  leave-Acquires p r n key result none e run = tt
  leave-Acquires p r n key got (some s) e run = goes run (leaves e)
  leave-Acquires p r n key (refused full) (some s) e run = goes run (times_out e)
  leave-Acquires p r n key (refused timed_out) (some s) e run = goes run (times_out e)

  waited-Acquires :
      (p q : Pool) (n key : ℕ) (o : Option (Pool × Waited))
      → Run Others p (admitting n) q (waiting n key)
      → Waits q n key o
      → Acquires p n key
          (◌>>=◌ {B = Pool × Waited} o (λ (r, result). leave_wait r key >>= λ s. some (s, result)))
  waited-Acquires p q n key none run w = tt
  waited-Acquires p q n key (some (r, result)) run w =
      leave-Acquires p r n key result (leave_wait r key) refl (Run-trans run w)

  entered-Acquires :
      (p : Pool) (n key deadline : ℕ) (rounds : List Round) (o : Option (Pool × Bool))
      → All (RoundWithin Others) rounds
      → enter_wait p key ≡ o
      → Acquires p n key (
          ◌>>=◌ {B = Pool × Waited} o (λ (q, entered).
            if entered
            then (wait_loop key deadline rounds q >>= λ (r, result).
                leave_wait r key >>= λ s. some (s, result))
            else some (p, refused full)))
  entered-Acquires p n key deadline rounds none h e = tt
  entered-Acquires p n key deadline rounds (some (q, true)) h e =
      waited-Acquires p q n key (wait_loop key deadline rounds q) (goes stays (enters e))
        (wait_loop-Waits q n key deadline rounds h)
  entered-Acquires p n key deadline rounds (some (q, false)) h e =
      subst (λ x. Run Others p (admitting n) x idle) (enter_wait-refused p q key e)
        (goes stays (overflows key e))

  pub acquire_on-Acquires :
      (p : Pool) (n key timeout now : ℕ) (rounds : List Round)
      → All (RoundWithin Others) rounds
      → Acquires p n key (acquire_on p key timeout now rounds)
  unfolding acquire_on
  acquire_on-Acquires p n key timeout now rounds h =
      entered-Acquires p n key (now + timeout) rounds (enter_wait p key) h refl
