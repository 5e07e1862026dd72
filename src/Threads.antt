-- ===== src/Threads.antt =====
-- src/main.rs and src/proxy.rs under threads: every thread of the program serves requests one after
-- the other, and a request with a key to its name goes through the stages of a `Pc`. A `Move` is one
-- operation of one thread on the shared pool, as long as a lock is held in the source; a `Step` picks
-- a thread, and any interleaving may follow. Which keys a thread tries, and in which order, is left
-- open, and so are the clock, when it gives up and whether it pins. `reads` and
-- `recalls` are the looks at a state and at a pin.
pub mod Effects
pub mod Limits
pub mod Invariant
pub mod Laws
pub mod Starts
pub mod Refinement
mod Tests
use ollamux.Base.{
  ℕ, zero, suc, ◌+◌, ◌≡◌, Bool, true, false, Option, some, List, [], ◌∷◌, ◌++◌, get_elem?, set, leb,
  ltb, Text,
}
use ollamux.Pool.{Pool, modify, observe_key, pinned_key}
use ollamux.Pool.Marks.{settle}
use ollamux.Pool.Admit.{try_acquire, release, enter_wait, leave_wait}
use ollamux.Pool.Interleaving.{System}
use ollamux.Proxy.{
  Upstream, Delivery, Attempt, sent, retryable, attempt, pin_some, unpin_some, max_attempts,
}

-- Where a thread stands, with its retries so far and the key that it is about.
pub data Pc : Type 0 where
  idle : Pc  -- no request
  admitting : ℕ → Pc  -- in `admit`, before a slot is found
  waiting : ℕ → ℕ → Pc  -- in `acquire_on`, entered
  granted : ℕ → ℕ → Pc  -- in `acquire_on`, with the permit
  attempting : ℕ → ℕ → Pc  -- in the loop of `proxy`, with the permit
  answered : ℕ → ℕ → ℕ → Pc  -- after `Attempt::Sent`, with the status
  settled : ℕ → ℕ → Pc  -- after `settle`
  failed : ℕ → ℕ → Pc  -- after `Attempt::Retryable`

pub data Move (p : Pool) : Pc → Pool → Pc → Type 0 where
  begins : Move p idle p (admitting 0)
  reads :
      {n : ℕ} {q : Pool} (key now : ℕ)
      → modify p key (λ ks. observe_key ks now) ≡ some q
      → Move p (admitting n) q (admitting n)
  recalls : {n : ℕ} (id : ℕ) → Move p (admitting n) ((pinned_key p id).0) (admitting n)
  rejects : {n : ℕ} → Move p (admitting n) p idle
  takes :
      {n key : ℕ} {q : Pool}
      → try_acquire p key ≡ some (q, true)
      → Move p (admitting n) q (attempting n key)
  misses :
      {n : ℕ} {q : Pool} (key : ℕ)
      → try_acquire p key ≡ some (q, false)
      → Move p (admitting n) q (admitting n)
  enters :
      {n key : ℕ} {q : Pool}
      → enter_wait p key ≡ some (q, true)
      → Move p (admitting n) q (waiting n key)
  overflows :
      {n : ℕ} {q : Pool} (key : ℕ)
      → enter_wait p key ≡ some (q, false)
      → Move p (admitting n) q idle
  wins :
      {n key : ℕ} {q : Pool}
      → try_acquire p key ≡ some (q, true)
      → Move p (waiting n key) q (granted n key)
  sleeps :
      {n key : ℕ} {q : Pool}
      → try_acquire p key ≡ some (q, false)
      → Move p (waiting n key) q (waiting n key)
  times_out : {n key : ℕ} {q : Pool} → leave_wait p key ≡ some q → Move p (waiting n key) q idle
  leaves :
      {n key : ℕ} {q : Pool}
      → leave_wait p key ≡ some q
      → Move p (granted n key) q (attempting n key)
  pins :
      {n key : ℕ} (identity : Option ℕ)
      → Move p (attempting n key) (pin_some identity key p) (attempting n key)
  answers :
      {n key status : ℕ} {q : Pool} (u : Upstream) (out : Delivery) (now : ℕ)
      → attempt p key u out now ≡ some (q, sent status)
      → Move p (attempting n key) q (answered n key status)
  fails :
      {n key : ℕ} {q : Pool} (u : Upstream) (out : Delivery) (now : ℕ) (reason : Text)
      → attempt p key u out now ≡ some (q, retryable reason)
      → Move p (attempting n key) q (failed n key)
  settles :
      {n key status : ℕ} {q : Pool}
      → settle p key (ltb status 400) ≡ some q
      → Move p (answered n key status) q (settled n key)
  confirms :
      {n key : ℕ} (identity : Option ℕ)
      → Move p (settled n key) (pin_some identity key p) (settled n key)
  ends : {n key : ℕ} {q : Pool} → release p key ≡ some q → Move p (settled n key) q idle
  unpins :
      {n key : ℕ} (identity : Option ℕ)
      → Move p (failed n key) (unpin_some identity key p) (failed n key)
  retries :
      {n key : ℕ} {q : Pool}
      → leb max_attempts (n + 1) ≡ false
      → release p key ≡ some q
      → Move p (failed n key) q (admitting (suc n))
  gives_up :
      {n key : ℕ} {q : Pool}
      → leb max_attempts (n + 1) ≡ true
      → release p key ≡ some q
      → Move p (failed n key) q idle

pub record Program : Type 0 where
  pub pool : Pool
  pub threads : List Pc

-- A thread moves; or something else than a request looks at the health of a key, or changes what is
-- no state of a key: an introspection page, the usage poller.
pub data Step (s u : Program) : Type 0 where
  moves :
      (i : ℕ) {pc pc' : Pc} {q : Pool}
      → get_elem? s.threads i ≡ some pc
      → Move s.pool pc q pc'
      → u ≡ record { pool = q; threads = set s.threads i pc' }
      → Step s u
  looks :
      (key now : ℕ) {q : Pool}
      → modify s.pool key (λ ks. observe_key ks now) ≡ some q
      → u ≡ record s { pool = q }
      → Step s u
  advises : (q : Pool) → q.states ≡ s.pool.states → u ≡ record s { pool = q } → Step s u

pub data Reach (s : Program) : Program → Type 0 where
  here : Reach s s
  next : {t u : Program} → Reach s t → Step t u → Reach s u

-- The key on which a thread has a permit, and the key on which it counts as a waiter.
abbrev pub held_by : Pc → List ℕ
held_by idle = []
held_by (admitting n) = []
held_by (waiting n key) = []
held_by (granted n key) = key ∷ []
held_by (attempting n key) = key ∷ []
held_by (answered n key status) = key ∷ []
held_by (settled n key) = key ∷ []
held_by (failed n key) = key ∷ []

abbrev pub waited_by : Pc → List ℕ
waited_by (waiting n key) = key ∷ []
waited_by (granted n key) = key ∷ []
waited_by pc = []

abbrev pub all_by : (Pc → List ℕ) → List Pc → List ℕ
all_by f [] = []
all_by f (pc ∷ pcs) = f pc ++ all_by f pcs

-- The threads as the pool sees them.
abbrev pub view : Program → System
view s = record {
  pool = s.pool;
  permits = all_by held_by s.threads;
  waiting = all_by waited_by s.threads;
}

abbrev pub idle_threads : ℕ → List Pc
idle_threads zero = []
idle_threads (suc n) = idle ∷ idle_threads n

abbrev pub launch : Pool → ℕ → Program
launch p n = record { pool = p; threads = idle_threads n }
