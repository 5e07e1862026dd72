-- ===== src/Threads/Laws.antt =====
-- src/main.rs, src/proxy.rs: what holds of the pool however the threads interleave.
use ollamux.Base.{
  ℕ, zero, suc, ◌+◌, ◌≤◌, ◌<◌, ◌≡◌, refl, sym, ap, ◌∙◌, subst, some, List, [], ◌∷◌, get_elem?,
  length, count, count-append, All, ltb, leb, Bool-cases, ◌==◌, inl, inr, ◌⊎◌, arith,
}
use ollamux.Pool.{Pool}
use ollamux.Pool.Admit.{end_wait, release, leave_wait}
use ollamux.Pool.Admit.Returns.{InRange, modify-Returns}
use ollamux.Proxy.{Upstream, Delivery, Attempt, sent, retryable, attempt, max_attempts}
use ollamux.Proxy.Returns.{attempt-Returns, settle-Returns, release-Returns}
use ollamux.Threads.{
  Pc, idle, admitting, waiting, granted, attempting, answered, settled, failed, Move, leaves,
  answers, fails, settles, ends, retries, gives_up, Program, held_by, waited_by, all_by,
  idle_threads,
}

abbrev pub IsIdle : Pc → Type 0
IsIdle pc = pc ≡ idle

all_by-idle : (f : Pc → List ℕ) (pcs : List Pc) → f idle ≡ [] → All IsIdle pcs → all_by f pcs ≡ []
all_by-idle f [] e h = refl
all_by-idle f (pc ∷ pcs) e (h, hs) = rw (h, e) (all_by-idle f pcs e hs)

pub idle_threads-IsIdle : (n : ℕ) → All IsIdle (idle_threads n)
idle_threads-IsIdle zero = tt
idle_threads-IsIdle (suc n) = (refl, idle_threads-IsIdle n)

pub idle-view :
    (s : Program) (key : ℕ)
    → All IsIdle s.threads
    → (count key (all_by held_by s.threads) ≡ 0) × (count key (all_by waited_by s.threads) ≡ 0)
idle-view s key h = (
  ap (count key) (all_by-idle held_by s.threads refl h),
  ap (count key) (all_by-idle waited_by s.threads refl h),
)

held_cases : (pc : Pc) → (held_by pc ≡ []) ⊎ ((k : ℕ) × (held_by pc ≡ k ∷ []))
held_cases idle = inl refl
held_cases (admitting n) = inl refl
held_cases (waiting n key) = inl refl
held_cases (granted n key) = inr (key, refl)
held_cases (attempting n key) = inr (key, refl)
held_cases (answered n key status) = inr (key, refl)
held_cases (settled n key) = inr (key, refl)
held_cases (failed n key) = inr (key, refl)

waited_once : (key : ℕ) (pc : Pc) → count key (waited_by pc) ≤ 1
waited_once key idle = omega arith
waited_once key (admitting n) = omega arith
waited_once key (waiting n k) = ground arith
waited_once key (granted n k) = ground arith
waited_once key (attempting n k) = omega arith
waited_once key (answered n k status) = omega arith
waited_once key (settled n k) = omega arith
waited_once key (failed n k) = omega arith

waiters_at_most : (key : ℕ) (pcs : List Pc) → count key (all_by waited_by pcs) ≤ length pcs
waiters_at_most key [] = omega arith
waiters_at_most key (x ∷ xs) = omega (
  arith,
  waiters_at_most key xs,
  count-append key (waited_by x) (all_by waited_by xs),
  waited_once key x,
)

-- A key that occurs is held by some thread.
pub holder :
    (key : ℕ) (pcs : List Pc)
    → 1 ≤ count key (all_by held_by pcs)
    → (j : ℕ) × (pc : Pc) × (get_elem? pcs j ≡ some pc) × (held_by pc ≡ key ∷ [])
holder key [] h = absurd (omega arith)
holder key (pc ∷ pcs) h = elim (held_cases pc) [
  | inl none_held ↦
      let (j, x, at, holds) =
        holder key pcs
          (ground (arith, none_held, count-append key (held_by pc) (all_by held_by pcs))) in
      (suc j, x, at, holds)
  | inr (k, one) ↦ elim (Bool-cases (key == k)) [
    | inl same ↦ (0, pc, refl, one ∙ ap (λ x. x ∷ []) (sym (ground arith)))
    | inr other ↦
        let (j, x, at, holds) =
          holder key pcs
            (ground (arith, one, count-append key (held_by pc) (all_by held_by pcs))) in
        (suc j, x, at, holds)
  ]
]

-- A thread that does not wait leaves room among the waiters.
pub waiters_below :
    (key : ℕ) (pcs : List Pc) (i : ℕ) (pc : Pc)
    → get_elem? pcs i ≡ some pc
    → waited_by pc ≡ []
    → count key (all_by waited_by pcs) < length pcs
waiters_below key [] i pc at w = cc
waiters_below key (x ∷ xs) zero pc at w =
    let same : x ≡ pc = ground arith in
    omega (
      arith,
      waiters_at_most key xs,
      count-append key (waited_by x) (all_by waited_by xs),
      ap (count key) (ap waited_by same ∙ w),
    )
waiters_below key (x ∷ xs) (suc i) pc at w = omega (
  arith,
  waiters_below key xs i pc at w,
  count-append key (waited_by x) (all_by waited_by xs),
  waited_once key x,
)

-- How far a thread with a permit is from giving it back.
abbrev pub distance : Pc → ℕ
distance (granted n key) = 4
distance (attempting n key) = 3
distance (answered n key status) = 2
distance (settled n key) = 1
distance (failed n key) = 1
distance pc = 0

-- Whatever the upstream answers, the thread has a move that brings it closer to that.
abbrev pub Advances : Pool → Pc → Type 0
Advances p pc =
    (u : Upstream) (out : Delivery) (now : ℕ)
    → (q : Pool) × (pc' : Pc) × Move p pc q pc' × (distance pc' < distance pc)

same_key : (k key : ℕ) → ◌≡◌ {A = List ℕ} (k ∷ []) (key ∷ []) → key ≡ k
same_key k key e = ground arith

answer-Move :
    (p q : Pool) (n key : ℕ) (u : Upstream) (out : Delivery) (now : ℕ) (a : Attempt)
    → attempt p key u out now ≡ some (q, a)
    → (pc' : Pc) × Move p (attempting n key) q pc' × (distance pc' < 3)
answer-Move p q n key u out now (sent status) e =
    (answered n key status, answers u out now e, omega arith)
answer-Move p q n key u out now (retryable reason) e =
    (failed n key, fails u out now reason e, omega arith)

failed-Move :
    (p q : Pool) (n key : ℕ)
    → release p key ≡ some q
    → (pc' : Pc) × Move p (failed n key) q pc' × (distance pc' < 1)
failed-Move p q n key e = elim (Bool-cases (leb max_attempts (n + 1))) [
  | inl many ↦ (idle, gives_up many e, omega arith)
  | inr few ↦ (admitting (suc n), retries few e, omega arith)
]

pub holder-Advances :
    (p : Pool) (pc : Pc) (key : ℕ) → held_by pc ≡ key ∷ [] → InRange p key → Advances p pc
unfolding leave_wait
holder-Advances p idle key e inside u out now = cc
holder-Advances p (admitting n) key e inside u out now = cc
holder-Advances p (waiting n k) key e inside u out now = cc
holder-Advances p (granted n k) key e inside u out now =
    let (q, made) = modify-Returns p k end_wait (subst (InRange p) (same_key k key e) inside) in
    (q, attempting n k, leaves made, omega arith)
holder-Advances p (attempting n k) key e inside u out now =
    let ((q, a), made) =
      attempt-Returns p k u out now (subst (InRange p) (same_key k key e) inside) in
    let (pc', move, less) = answer-Move p q n k u out now a made in (q, pc', move, less)
holder-Advances p (answered n k status) key e inside u out now =
    let (q, made) =
      settle-Returns p k (ltb status 400) (subst (InRange p) (same_key k key e) inside) in
    (q, settled n k, settles made, omega arith)
holder-Advances p (settled n k) key e inside u out now =
    let (q, made) = release-Returns p k (subst (InRange p) (same_key k key e) inside) in
    (q, idle, ends made, omega arith)
holder-Advances p (failed n k) key e inside u out now =
    let (q, made) = release-Returns p k (subst (InRange p) (same_key k key e) inside) in
    let (pc', move, less) = failed-Move p q n k made in (q, pc', move, less)
