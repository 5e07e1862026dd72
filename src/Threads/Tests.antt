-- ===== src/Threads/Tests.antt =====
-- src/main.rs, src/proxy.rs: threads at work at concrete inputs, and the theorems on them.
use ollamux.Base.{
  ℕ, ◌≤◌, ◌≡◌, refl, ◌⊎◌, true, some, List, [], ◌∷◌, get_elem?, set, count, codes, text_eq,
  split_once, trim, rsplit_once, is_whitespace, starts_with, is_digit, arith,
}
use ollamux.Config.{load, parse}
use ollamux.Pool.{KeyState, Pool, fresh_health, new, new_key, total_slots, modify}
use ollamux.Pool.Admit.{try_acquire, enter_wait}
use ollamux.Cli.{parse_args}
use ollamux.Cli.Startup.{start_up, serves, set_up, workers}
use ollamux.Cli.Tests.{environment, arguments, variables, config, pool}
use ollamux.Threads.{
  Pc, Move, idle, admitting, waiting, attempting, begins, takes, enters, Program, moves, Reach,
  here, next, held_by, waited_by, all_by,
}
use ollamux.Threads.Starts.{serving, threads-Accounted, no_deadlock, queue_never_full}
use ollamux.Threads.Laws.{Advances}

-- A first key of two slots, and how many of them are in use, how many threads wait.
abbrev key_a : ℕ → ℕ → KeyState
key_a held waiters = record {
  concurrency = 2;
  held = held;
  waiters = waiters;
  waiter_cap = 32;
  health = fresh_health;
}

abbrev with_a : ℕ → ℕ → Pool
with_a held waiters = record pool { states = key_a held waiters ∷ new_key 3 32 ∷ [] }

-- Two threads have the slots of the first key, and a third waits for one.
abbrev busy : List Pc
busy = attempting 0 0 ∷ attempting 0 0 ∷ waiting 0 0 ∷ admitting 0 ∷ idle ∷ idle ∷ []

abbrev contended : Program
contended = record { pool = with_a 2 1; threads = busy }

then_moves :
    {s t : Program} {pc pc' : Pc} {q : Pool}
    → Reach s t
    → (i : ℕ) → get_elem? t.threads i ≡ some pc
    → Move t.pool pc q pc'
    → Reach s (record { pool = q; threads = set t.threads i pc' })
then_moves r i at move = next r (moves i at move refl)

-- Four requests arrive.
begun : Reach (serving pool) (record {
  pool = with_a 0 0;
  threads = admitting 0 ∷ admitting 0 ∷ admitting 0 ∷ admitting 0 ∷ idle ∷ idle ∷ [];
})
unfolding workers set_up new new_key total_slots
begun =
    then_moves
      (then_moves (then_moves (then_moves {q = pool} here 0 refl begins) 1 refl begins) 2 refl
        begins)
      3 refl begins

contended-reached : Reach (serving pool) contended
unfolding try_acquire enter_wait modify
contended-reached =
    then_moves {q = with_a 2 1}
      (then_moves {q = with_a 2 0} (then_moves {q = with_a 1 0} begun 0 refl (takes refl)) 1 refl
        (takes refl))
      2 refl (enters refl)

serves_pool : start_up environment arguments variables ≡ serves config pool
unfolding start_up parse_args load codes text_eq split_once parse trim rsplit_once is_whitespace
    starts_with is_digit
serves_pool = refl

threads-Accounted_example :
    ((key_a 2 1).held ≡ count 0 (all_by held_by busy))
    × ((key_a 2 1).held ≤ (key_a 2 1).concurrency)
    × ((key_a 2 1).waiters ≡ count 0 (all_by waited_by busy))
    × ((key_a 2 1).waiters ≤ (key_a 2 1).waiter_cap)
threads-Accounted_example =
    threads-Accounted environment arguments variables config pool contended serves_pool
      contended-reached 0 (key_a 2 1) refl

no_deadlock_example :
    ((q : Pool) × (try_acquire (with_a 2 1) 0 ≡ some (q, true)))
    ⊎ ((j : ℕ) × (pc : Pc) × (get_elem? busy j ≡ some pc)
        × (held_by pc ≡ 0 ∷ [])
        × Advances (with_a 2 1) pc)
no_deadlock_example =
    no_deadlock environment arguments variables config pool contended 2 0 0 (key_a 2 1) serves_pool
      contended-reached refl refl

queue_never_full_example : (q : Pool) × (enter_wait (with_a 2 1) 0 ≡ some (q, true))
unfolding set_up new new_key total_slots
queue_never_full_example =
    queue_never_full environment arguments variables config pool contended 3 0 0 (key_a 2 1)
      serves_pool (omega arith) contended-reached refl refl
