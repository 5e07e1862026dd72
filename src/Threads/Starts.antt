-- ===== src/Threads/Starts.antt =====
-- src/main.rs: the threads of a program that serves, from its start.
use ollamux.Base.{
  ℕ, zero, suc, ◌+◌, ◌≤◌, ◌<◌, ◌≡◌, refl, sym, ap, ◌∙◌, true, some, none, List, [], ◌∷◌, All, map,
  get_elem?, set, count, length, ltb, Option-cases, Bool-cases, inl, inr, ◌⊎◌, arith, Text,
}
use ollamux.Config.{Environment, Entry}
use ollamux.Pool.{Pool, KeyState, new_key, modify, total_slots}
use ollamux.Pool.Admit.{try_acquire, enter_wait, take_slot, start_wait}
use ollamux.Pool.Admit.Held.{slots_of}
use ollamux.Pool.Interleaving.{Inv}
use ollamux.Cli.{Config, Variables, waiter_cap}
use ollamux.Cli.Startup.{start_up, serves, workers, start_up-serves, set_up-states, start_up-Inv}
use ollamux.Threads.{
  Pc, admitting, waiting, Program, Reach, held_by, waited_by, all_by, view, idle_threads, launch,
}
use ollamux.Threads.Invariant.{Reach-view}
use ollamux.Threads.Limits.{limits_of, Reach-Fixed}
use ollamux.Threads.Laws.{
  IsIdle, idle_threads-IsIdle, idle-view, holder, waiters_below, Advances, holder-Advances,
}

-- The threads of a program that serves from the pool `p`: the workers and the main thread.
abbrev pub serving : Pool → Program
serving p = launch p (workers p + 1)

length-idle_threads : (n : ℕ) → length (idle_threads n) ≡ n
length-idle_threads zero = refl
length-idle_threads (suc n) = ap suc (length-idle_threads n)

new_key-limits :
    (es : List Entry) (key : ℕ) (ks : KeyState)
    → get_elem? (map (λ e. new_key e.1 waiter_cap) es) key ≡ some ks
    → (1 ≤ ks.concurrency) × (ks.waiter_cap ≡ 32)
unfolding new_key
new_key-limits [] key ks e = cc
new_key-limits (x ∷ xs) zero ks e = (ground arith, ground arith)
new_key-limits (x ∷ xs) (suc key) ks e = new_key-limits xs key ks e

started-Inv :
    (files : Environment) (args : List Text) (env : Variables) (cfg : Config) (p : Pool) (n : ℕ)
    → start_up files args env ≡ serves cfg p
    → Inv (view (launch p n))
started-Inv files args env cfg p n h key ks at =
    let (held, waited) = idle-view (launch p n) key (idle_threads-IsIdle n) in
    rw (held, waited) (start_up-Inv files args env cfg p h key ks at)

reached-Inv :
    (files : Environment) (args : List Text) (env : Variables) (cfg : Config) (p : Pool)
    (s : Program)
    → start_up files args env ≡ serves cfg p
    → Reach (serving p) s
    → Inv (view s)
reached-Inv files args env cfg p s h r =
    Reach-view (started-Inv files args env cfg p (workers p + 1) h) r

-- However the threads of a program that serves interleave, the slots in use of every key are as many
-- as the threads that have a permit of it, in `acquire_on` or in an attempt, and at most its
-- concurrency; and its waiters are as many as the threads in `acquire_on` past its entry, and at
-- most the cap.
pub threads-Accounted :
    (files : Environment) (args : List Text) (env : Variables) (cfg : Config) (p : Pool)
    (s : Program)
    → start_up files args env ≡ serves cfg p
    → Reach (serving p) s
    → (key : ℕ) (ks : KeyState) → get_elem? s.pool.states key ≡ some ks
    → (ks.held ≡ count key (all_by held_by s.threads))
      × (ks.held ≤ ks.concurrency)
      × (ks.waiters ≡ count key (all_by waited_by s.threads))
      × (ks.waiters ≤ ks.waiter_cap)
threads-Accounted files args env cfg p s h r key ks at =
    let acc = reached-Inv files args env cfg p s h r key ks at in
    (acc.held_permits, acc.held_bounded, acc.waiters_waiting, acc.waiters_bounded)

-- Nothing leaks: whenever all threads of a program that serves are between two requests, whatever
-- failures, rejections and timeouts the requests before went through, no slot of a key is in use and
-- no waiter is counted.
pub idle-NothingHeld :
    (files : Environment) (args : List Text) (env : Variables) (cfg : Config) (p : Pool)
    (s : Program)
    → start_up files args env ≡ serves cfg p
    → Reach (serving p) s
    → All IsIdle s.threads
    → (key : ℕ) (ks : KeyState) → get_elem? s.pool.states key ≡ some ks
    → (ks.held ≡ 0) × (ks.waiters ≡ 0)
idle-NothingHeld files args env cfg p s h r rest key ks at =
    let acc = reached-Inv files args env cfg p s h r key ks at in
    let (held, waited) = idle-view s key rest in
    (acc.held_permits ∙ held, acc.waiters_waiting ∙ waited)

no_limits : (ks : KeyState) → ¬ (limits_of (some ks) ≡ limits_of none)
no_limits ks e = cc

limits-reached :
    (files : Environment) (args : List Text) (env : Variables) (cfg : Config) (p : Pool)
    (s : Program) (key : ℕ) (ks : KeyState)
    → start_up files args env ≡ serves cfg p
    → Reach (serving p) s
    → get_elem? s.pool.states key ≡ some ks
    → (1 ≤ ks.concurrency) × (ks.waiter_cap ≡ 32)
limits-reached files args env cfg p s key ks h r at =
    let (entries, a, l, g, made) = start_up-serves files args env cfg p h in
    let states = ap (λ (q : Pool). q.states) made ∙ set_up-states cfg entries in
    let fixed = (Reach-Fixed r).0 key in
    elim (Option-cases (get_elem? p.states key)) [
      | inl out ↦ absurd (no_limits ks (sym (ap limits_of at) ∙ fixed ∙ ap limits_of out))
      | inr (old, there) ↦
          let (c, w) =
            new_key-limits entries key old (sym (ap (λ ss. get_elem? ss key) states) ∙ there) in
          let same : limits_of (some ks) ≡ limits_of (some old) =
            sym (ap limits_of at) ∙ fixed ∙ ap limits_of there in
          (ground arith, ground arith)
    ]

slot_free :
    (p : Pool) (key : ℕ) (ks : KeyState)
    → get_elem? p.states key ≡ some ks
    → ltb ks.held ks.concurrency ≡ true
    → (q : Pool) × (try_acquire p key ≡ some (q, true))
unfolding try_acquire modify
slot_free p key ks at free = (record p { states = set p.states key (take_slot ks) }, ground arith)

-- While a thread of a program that serves waits for a slot of a key of the pool, either it can take
-- one now, or some thread has a permit of this key and, whatever the upstream answers, can make a
-- move that brings it closer to giving it back.
pub no_deadlock :
    (files : Environment) (args : List Text) (env : Variables) (cfg : Config) (p : Pool)
    (s : Program) (i n key : ℕ) (ks : KeyState)
    → start_up files args env ≡ serves cfg p
    → Reach (serving p) s
    → get_elem? s.threads i ≡ some (waiting n key)
    → get_elem? s.pool.states key ≡ some ks
    → ((q : Pool) × (try_acquire s.pool key ≡ some (q, true)))
      ⊎ ((j : ℕ) × (pc : Pc) × (get_elem? s.threads j ≡ some pc)
          × (held_by pc ≡ key ∷ [])
          × Advances s.pool pc)
no_deadlock files args env cfg p s i n key ks h r waits at =
    elim (Bool-cases (ltb ks.held ks.concurrency)) [
      | inl free ↦ inl (slot_free s.pool key ks at free)
      | inr full ↦
          let acc = reached-Inv files args env cfg p s h r key ks at in
          let (some_slot, cap) = limits-reached files args env cfg p s key ks h r at in
          let (j, pc, there, holds) = holder key s.threads (ground (arith, acc)) in
          inr (
            j,
            pc,
            there,
            holds,
            holder-Advances s.pool pc key holds ((ks.held, ks.concurrency), ap slots_of at),
          )
    ]

room_left :
    (p : Pool) (key : ℕ) (ks : KeyState)
    → get_elem? p.states key ≡ some ks
    → ks.waiters < ks.waiter_cap
    → (q : Pool) × (enter_wait p key ≡ some (q, true))
unfolding enter_wait modify
room_left p key ks at room = (record p { states = set p.states key (start_wait ks) }, ground arith)

-- With at most 31 slots in all, the wait queue of a key is never full: in a program that serves, a
-- thread that looks for a slot always gets past the entry of `acquire_on`, on any key of the pool.
pub queue_never_full :
    (files : Environment) (args : List Text) (env : Variables) (cfg : Config) (p : Pool)
    (s : Program) (i n key : ℕ) (ks : KeyState)
    → start_up files args env ≡ serves cfg p
    → total_slots p.states ≤ 31
    → Reach (serving p) s
    → get_elem? s.threads i ≡ some (admitting n)
    → get_elem? s.pool.states key ≡ some ks
    → (q : Pool) × (enter_wait s.pool key ≡ some (q, true))
unfolding workers
queue_never_full files args env cfg p s i n key ks h few r looks_for at =
    let acc = reached-Inv files args env cfg p s h r key ks at in
    let (some_slot, cap) = limits-reached files args env cfg p s key ks h r at in
    let below = waiters_below key s.threads i (admitting n) looks_for refl in
    room_left s.pool key ks at (
      omega (
        arith,
        acc.waiters_waiting,
        cap,
        below,
        (Reach-Fixed r).1,
        length-idle_threads (workers p + 1),
      ))
