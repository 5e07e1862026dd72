-- ===== src/Pool/Interleaving.antt =====
-- src/pool.rs under threads: each step is one operation of some thread on the shared pool. Beside
-- the pool, a `System` keeps what the threads hold: the permits (their keys), and the keys on which
-- threads are in `acquire_on` past its entry.
use ollamux.Base.{
  ℕ, zero, suc, ◌-◌, ◌≤◌, ◌<◌, ◌^◌, ◌≡◌, ◌≢◌, refl, sym, subst, ap, inl, inr, Bool, true, some,
  List, [], ◌∷◌, map, All, get_elem?, count, ◌==◌, if◌then◌else◌, Option-cases, Bool-cases, ==_iff,
  Text, arith, ◌∙◌,
}
use mathlib.Core.Bool.{false≢true}
use ollamux.Pool.{Health, KeyState, Pool, modify, new, new_key}
use ollamux.Pool.Marks.{on_health}
use ollamux.Pool.Marks.Laws.{modify-frame}
use ollamux.Pool.Admit.{
  take_slot, free_slot, start_wait, end_wait, try_acquire, release, enter_wait, leave_wait,
}

pub record System : Type 0 where
  pub pool : Pool
  pub permits : List ℕ
  pub waiting : List ℕ

abbrev pub remove_one : ℕ → List ℕ → List ℕ
remove_one key [] = []
remove_one key (k ∷ ks) = if k == key then ks else k ∷ remove_one key ks

-- `marks` is any change of a key's health, so every mark and every reading of a state; `advises` is
-- any change that leaves the states of the keys alone: pins, usage, the last successful key.
pub data Step (s u : System) : Type 0 where
  takes :
      (key : ℕ) (q : Pool)
      → try_acquire s.pool key ≡ some (q, true)
      → u ≡ record s { pool = q; permits = key ∷ s.permits }
      → Step s u
  drops :
      (key : ℕ) (q : Pool)
      → 1 ≤ count key s.permits
      → release s.pool key ≡ some q
      → u ≡ record s { pool = q; permits = remove_one key s.permits }
      → Step s u
  enters :
      (key : ℕ) (q : Pool)
      → enter_wait s.pool key ≡ some (q, true)
      → u ≡ record s { pool = q; waiting = key ∷ s.waiting }
      → Step s u
  leaves :
      (key : ℕ) (q : Pool)
      → 1 ≤ count key s.waiting
      → leave_wait s.pool key ≡ some q
      → u ≡ record s { pool = q; waiting = remove_one key s.waiting }
      → Step s u
  marks :
      (key : ℕ) (f : Health → Health) (q : Pool)
      → modify s.pool key (on_health f) ≡ some q
      → u ≡ record s { pool = q }
      → Step s u
  advises : (q : Pool) → q.states ≡ s.pool.states → u ≡ record s { pool = q } → Step s u

pub data Reach (s : System) : System → Type 0 where
  here : Reach s s
  next : {t u : System} → Reach s t → Step t u → Reach s u

-- The counters of a key are what its threads hold, and stay within their bounds.
pub record Accounted (permits waiting : ℕ) (ks : KeyState) : Type 0 where
  pub held_permits : ks.held ≡ permits
  pub held_bounded : ks.held ≤ ks.concurrency
  pub waiters_waiting : ks.waiters ≡ waiting
  pub waiters_bounded : ks.waiters ≤ ks.waiter_cap
  pub concurrency_u32 : ks.concurrency < 2 ^ 32
  pub cap_u32 : ks.waiter_cap < 2 ^ 32

abbrev pub Inv : System → Type 0
Inv s =
    (key : ℕ) (ks : KeyState)
    → get_elem? s.pool.states key ≡ some ks
    → Accounted (count key s.permits) (count key s.waiting) ks

count-remove_one :
    (key a : ℕ) (xs : List ℕ)
    → count a (remove_one key xs) ≡ (if a == key then count a xs - 1 else count a xs)
count-remove_one key a [] = ground arith
count-remove_one key a (x ∷ xs) = ground (arith, count-remove_one key a xs)

-- A step on one key keeps the invariant if it does so for that key.
pub step_key :
    (s : System) (q : Pool) (key : ℕ) (f : KeyState → KeyState) (permits waiting : List ℕ)
    → Inv s
    → modify s.pool key f ≡ some q
    → ((other : ℕ) → key ≢ other → count other permits ≡ count other s.permits)
    → ((other : ℕ) → key ≢ other → count other waiting ≡ count other s.waiting)
    → ((ks : KeyState)
        → get_elem? s.pool.states key ≡ some ks
        → Accounted (count key permits) (count key waiting) (f ks))
    → Inv (record { pool = q; permits = permits; waiting = waiting })
step_key s q key f permits waiting v e hp hw here' other ks at =
    let (ks₀, found, written, _, others) = modify-frame s.pool q key f e in
    elim (Bool-cases (key == other)) [
      | inl same ↦
          let e₁ : key ≡ other = (==_iff key other).0 same in
          let e₂ : f ks₀ ≡ ks = cc (e₁, written, at) in
          subst (λ k. Accounted (count k permits) (count k waiting) ks) e₁
            (subst (Accounted (count key permits) (count key waiting)) e₂ (here' ks₀ found))
      | inr differ ↦
          let ne : key ≢ other = λ h. false≢true (sym differ ∙ (==_iff key other).1 h) in
          rw (hp other ne, hw other ne) (v other ks (sym (others other ne) ∙ at))
    ]

pub try_acquire-eq-some :
    (p q : Pool) (key : ℕ)
    → try_acquire p key ≡ some (q, true)
    → (modify p key take_slot ≡ some q)
      × ((ks : KeyState) → get_elem? p.states key ≡ some ks → ks.held < ks.concurrency)
unfolding try_acquire modify
try_acquire-eq-some p q key e = elim (Option-cases (get_elem? p.states key)) [
  | inl out ↦ absurd (ground arith)
  | inr (ks, found) ↦ (ground arith, λ k at. ground arith)
]

pub enter_wait-eq-some :
    (p q : Pool) (key : ℕ)
    → enter_wait p key ≡ some (q, true)
    → (modify p key start_wait ≡ some q)
      × ((ks : KeyState) → get_elem? p.states key ≡ some ks → ks.waiters < ks.waiter_cap)
unfolding enter_wait modify
enter_wait-eq-some p q key e = elim (Option-cases (get_elem? p.states key)) [
  | inl out ↦ absurd (ground arith)
  | inr (ks, found) ↦ (ground arith, λ k at. ground arith)
]

Step-Inv : {s u : System} → Step s u → Inv s → Inv u
unfolding release leave_wait
Step-Inv {s} (takes key q e made) v =
    let (m, free) = try_acquire-eq-some s.pool q key e in
    subst Inv (sym made) (
      step_key s q key take_slot (key ∷ s.permits) s.waiting v m (λ o ne. ground arith)
        (λ o ne. refl) (λ ks at. ground (arith, free ks at, v key ks at)))
Step-Inv {s} (drops key q one e made) v = subst Inv (sym made) (
    step_key s q key free_slot (remove_one key s.permits) s.waiting v e
      (λ o ne. ground (arith, count-remove_one key o s.permits)) (λ o ne. refl)
      (λ ks at. ground (arith, v key ks at, count-remove_one key key s.permits)))
Step-Inv {s} (enters key q e made) v =
    let (m, room) = enter_wait-eq-some s.pool q key e in
    subst Inv (sym made) (
      step_key s q key start_wait s.permits (key ∷ s.waiting) v m (λ o ne. refl)
        (λ o ne. ground arith) (λ ks at. ground (arith, room ks at, v key ks at)))
Step-Inv {s} (leaves key q one e made) v = subst Inv (sym made) (
    step_key s q key end_wait s.permits (remove_one key s.waiting) v e (λ o ne. refl)
      (λ o ne. ground (arith, count-remove_one key o s.waiting))
      (λ ks at. ground (arith, v key ks at, count-remove_one key key s.waiting)))
Step-Inv {s} (marks key f q e made) v = subst Inv (sym made) (
    step_key s q key (on_health f) s.permits s.waiting v e (λ o ne. refl) (λ o ne. refl)
      (λ ks at. ground (arith, v key ks at)))
Step-Inv {s} (advises q same made) v =
    subst Inv (sym made) (λ key ks at. v key ks (sym (ap (λ ss. get_elem? ss key) same) ∙ at))

pub Reach-Inv : {s u : System} → Inv s → Reach s u → Inv u
Reach-Inv v here = v
Reach-Inv v (next r st) = Step-Inv st (Reach-Inv v r)

-- The limits that the keys file may give.
abbrev pub IsU32 : Text × ℕ → Type 0
IsU32 e = e.1 < 2 ^ 32

pub new-Accounted :
    (entries : List (Text × ℕ)) (cap key : ℕ) (ks : KeyState)
    → All IsU32 entries
    → cap < 2 ^ 32
    → get_elem? (map (λ e. new_key e.1 cap) entries) key ≡ some ks
    → Accounted 0 0 ks
unfolding new_key
new-Accounted [] cap key ks h c e = cc
new-Accounted (x ∷ xs) cap zero ks h c e = ground arith
new-Accounted (x ∷ xs) cap (suc key) ks h c e = new-Accounted xs cap key ks h.1 c e

abbrev pub start : List (Text × ℕ) → ℕ → Bool → System
start entries cap verbose = record { pool = new entries cap verbose; permits = []; waiting = [] }

-- However the operations of the threads interleave on a pool that was new, with a concurrency for
-- each key and a cap on its waiters below 2^32, the slots in use of every key are exactly the
-- permits that are out on it, and at most its concurrency; and its waiters are exactly the threads
-- that wait on it, and at most the cap.
pub Reach-Accounted :
    (entries : List (Text × ℕ)) (cap : ℕ) (verbose : Bool) (s : System)
    → All IsU32 entries
    → cap < 2 ^ 32
    → Reach (start entries cap verbose) s
    → (key : ℕ) (ks : KeyState) → get_elem? s.pool.states key ≡ some ks
    → (ks.held ≡ count key s.permits)
      × (count key s.permits ≤ ks.concurrency)
      × (ks.waiters ≡ count key s.waiting)
      × (count key s.waiting ≤ ks.waiter_cap)
unfolding new
Reach-Accounted entries cap verbose s h c r key ks at =
    ground (arith, Reach-Inv (λ k x e. new-Accounted entries cap k x h c e) r key ks at)
