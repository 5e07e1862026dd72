-- ===== src/Threads/Invariant.antt =====
-- src/main.rs, src/proxy.rs: a move of a thread keeps the account of permits and waiters.
use ollamux.Base.{
  ℕ, zero, suc, ◌+◌, ◌≡◌, ◌≢◌, refl, sym, ap, subst, ◌∙◌, some, List, [], ◌∷◌, get_elem?, set,
  count, count-append, ltb, inl, inr, arith,
}
use ollamux.Pool.{Health, KeyState, Pool, modify, observe, pinned_key}
use ollamux.Pool.Marks.{on_health, confirm}
use ollamux.Pool.Admit.{take_slot, free_slot, start_wait, end_wait, release, leave_wait}
use ollamux.Pool.Interleaving as Interleaving
use ollamux.Pool.Admit.Affine.{pinned_key-states}
use ollamux.Pool.Admit.Held.{try_acquire-refused}
use ollamux.Pool.Interleaving.{
  Inv, Accounted, step_key, Reach-Inv, try_acquire-eq-some, enter_wait-eq-some,
}
use ollamux.Proxy.{sent, retryable}
use ollamux.Threads.Effects.{
  attempt-effect, settle-effect, observe-on_health, enter_wait-refused, Accounted-on_health,
  HealthOnly,
}
use ollamux.Proxy.Slots.{pin_some-states, unpin_some-states}
use ollamux.Threads.{
  Pc, Move, begins, reads, recalls, rejects, takes, misses, enters, overflows, wins, sleeps,
  times_out, leaves, pins, answers, fails, settles, confirms, ends, unpins, retries, gives_up,
  Program, Step, moves, looks, advises, Reach, here, next, held_by, waited_by, all_by, view,
}

pub count-all_by :
    (f : Pc → List ℕ) (key : ℕ) (pcs : List Pc) (i : ℕ) (pc pc' : Pc)
    → get_elem? pcs i ≡ some pc
    → count key (all_by f (set pcs i pc')) + count key (f pc)
      ≡ count key (all_by f pcs) + count key (f pc')
count-all_by f key [] i pc pc' e = cc
count-all_by f key (x ∷ xs) zero pc pc' e =
    let same : x ≡ pc = ground arith in
    omega (
      arith,
      count-append key (f pc') (all_by f xs),
      count-append key (f x) (all_by f xs),
      ap (λ y. count key (f y)) same,
    )
count-all_by f key (x ∷ xs) (suc i) pc pc' e = omega (
  arith,
  count-append key (f x) (all_by f (set xs i pc')),
  count-append key (f x) (all_by f xs),
  count-all_by f key xs i pc pc' e,
)

-- A thread moves, and the state of one key changes.
moved :
    (s : Program) (i : ℕ) (pc pc' : Pc) (q : Pool) (key : ℕ) (f : KeyState → KeyState)
    → Inv (view s)
    → get_elem? s.threads i ≡ some pc
    → modify s.pool key f ≡ some q
    → ((other : ℕ) → key ≢ other → count other (held_by pc') ≡ count other (held_by pc))
    → ((other : ℕ) → key ≢ other → count other (waited_by pc') ≡ count other (waited_by pc))
    → ((ks : KeyState) (a b a' b' : ℕ)
        → get_elem? s.pool.states key ≡ some ks
        → Accounted a b ks
        → a' + count key (held_by pc) ≡ a + count key (held_by pc')
        → b' + count key (waited_by pc) ≡ b + count key (waited_by pc')
        → Accounted a' b' (f ks))
    → Inv (view (record { pool = q; threads = set s.threads i pc' }))
moved s i pc pc' q key f v at e hp hw step =
    step_key (view s) q key f (all_by held_by (set s.threads i pc'))
      (all_by waited_by (set s.threads i pc')) v e
      (λ o ne. omega (arith, hp o ne, count-all_by held_by o s.threads i pc pc' at))
      (λ o ne. omega (arith, hw o ne, count-all_by waited_by o s.threads i pc pc' at))
      (λ ks there.
        step ks _ _ _ _ there (v key ks there) (count-all_by held_by key s.threads i pc pc' at)
          (count-all_by waited_by key s.threads i pc pc' at))

-- The threads hold what they held before, and wait as before.
abbrev SameHolds : Pc → Pc → Type 0
SameHolds pc pc' =
    (o : ℕ)
    → (count o (held_by pc') ≡ count o (held_by pc))
      × (count o (waited_by pc') ≡ count o (waited_by pc))

-- A thread moves, and no state of a key changes.
quiet :
    (s : Program) (i : ℕ) (pc pc' : Pc) (q : Pool)
    → Inv (view s)
    → get_elem? s.threads i ≡ some pc
    → q.states ≡ s.pool.states
    → SameHolds pc pc'
    → Inv (view (record { pool = q; threads = set s.threads i pc' }))
quiet s i pc pc' q v at same holds key ks e =
    let h : count key (all_by held_by (set s.threads i pc'))
        ≡ count key (all_by held_by s.threads) =
      omega (arith, (holds key).0, count-all_by held_by key s.threads i pc pc' at) in
    let w : count key (all_by waited_by (set s.threads i pc'))
        ≡ count key (all_by waited_by s.threads) =
      omega (arith, (holds key).1, count-all_by waited_by key s.threads i pc pc' at) in
    rw (h, w) (v key ks (sym (ap (λ ss. get_elem? ss key) same) ∙ e))

-- A thread moves, and the health of a key changes.
healthy :
    (s : Program) (i : ℕ) (pc pc' : Pc) (q : Pool) (key : ℕ) (g : Health → Health)
    → Inv (view s)
    → get_elem? s.threads i ≡ some pc
    → modify s.pool key (on_health g) ≡ some q
    → SameHolds pc pc'
    → Inv (view (record { pool = q; threads = set s.threads i pc' }))
healthy s i pc pc' q key g v at e holds =
    moved s i pc pc' q key (on_health g) v at e (λ o ne. (holds o).0) (λ o ne. (holds o).1)
      (λ ks a b a' b' there acc h w.
        Accounted-on_health ks g a b a' b' acc (omega (arith, h, (holds key).0))
          (omega (arith, w, (holds key).1)))

marked :
    (s : Program) (i : ℕ) (pc pc' : Pc) (q : Pool) (key : ℕ)
    → Inv (view s)
    → get_elem? s.threads i ≡ some pc
    → HealthOnly s.pool q key
    → SameHolds pc pc'
    → Inv (view (record { pool = q; threads = set s.threads i pc' }))
marked s i pc pc' q key v at (inl same) holds =
    quiet s i pc pc' q v at (ap (λ (r : Pool). r.states) same) holds
marked s i pc pc' q key v at (inr (g, e)) holds = healthy s i pc pc' q key g v at e holds

-- A thread that waits for nothing gives back its permit.
freed :
    (s : Program) (i : ℕ) (pc pc' : Pc) (q : Pool) (key : ℕ)
    → Inv (view s)
    → get_elem? s.threads i ≡ some pc
    → release s.pool key ≡ some q
    → ((o : ℕ)
        → (count o (held_by pc) ≡ count o (key ∷ []))
          × (count o (waited_by pc') ≡ count o (waited_by pc)))
    → ((o : ℕ) → count o (held_by pc') ≡ 0)
    → Inv (view (record { pool = q; threads = set s.threads i pc' }))
unfolding release
freed s i pc pc' q key v at e holds none_held =
    moved s i pc pc' q key free_slot v at e (λ o ne. ground (arith, (holds o).0, none_held o))
      (λ o ne. (holds o).1)
      (λ ks a b a' b' there acc h w.
        ground (arith, acc, (holds key).0, (holds key).1, none_held key))

Move-Inv :
    (s : Program) (i : ℕ) {pc pc' : Pc} {q : Pool}
    → Inv (view s)
    → get_elem? s.threads i ≡ some pc
    → Move s.pool pc q pc'
    → Inv (view (record { pool = q; threads = set s.threads i pc' }))
unfolding release leave_wait
Move-Inv s i {pc} {pc'} v at begins = quiet s i pc pc' s.pool v at refl (λ o. (refl, refl))
Move-Inv s i {pc} {pc'} {q} v at (reads key now e) =
    healthy s i pc pc' q key (λ h. observe h now) v at (observe-on_health s.pool q key now e)
      (λ o. (refl, refl))
Move-Inv s i {pc} {pc'} v at (recalls id) =
    quiet s i pc pc' (pinned_key s.pool id).0 v at (pinned_key-states s.pool id) (λ o. (refl, refl))
Move-Inv s i {pc} {pc'} v at rejects = quiet s i pc pc' s.pool v at refl (λ o. (refl, refl))
Move-Inv s i {pc} {pc'} {q} v at (takes {n} {key} e) =
    let (m, free) = try_acquire-eq-some s.pool q key e in
    moved s i pc pc' q key take_slot v at m (λ o ne. ground arith) (λ o ne. refl)
      (λ ks a b a' b' there acc h w. ground (arith, free ks there, acc))
Move-Inv s i {pc} {pc'} {q} v at (misses key e) =
    quiet s i pc pc' q v at (ap (λ (r : Pool). r.states) (try_acquire-refused s.pool q key e))
      (λ o. (refl, refl))
Move-Inv s i {pc} {pc'} {q} v at (enters {n} {key} e) =
    let (m, room) = enter_wait-eq-some s.pool q key e in
    moved s i pc pc' q key start_wait v at m (λ o ne. refl) (λ o ne. ground arith)
      (λ ks a b a' b' there acc h w. ground (arith, room ks there, acc))
Move-Inv s i {pc} {pc'} {q} v at (overflows key e) =
    quiet s i pc pc' q v at (ap (λ (r : Pool). r.states) (enter_wait-refused s.pool q key e))
      (λ o. (refl, refl))
Move-Inv s i {pc} {pc'} {q} v at (wins {n} {key} e) =
    let (m, free) = try_acquire-eq-some s.pool q key e in
    moved s i pc pc' q key take_slot v at m (λ o ne. ground arith) (λ o ne. refl)
      (λ ks a b a' b' there acc h w. ground (arith, free ks there, acc))
Move-Inv s i {pc} {pc'} {q} v at (sleeps {n} {key} e) =
    quiet s i pc pc' q v at (ap (λ (r : Pool). r.states) (try_acquire-refused s.pool q key e))
      (λ o. (refl, refl))
Move-Inv s i {pc} {pc'} {q} v at (times_out {n} {key} e) =
    moved s i pc pc' q key end_wait v at e (λ o ne. refl) (λ o ne. ground arith)
      (λ ks a b a' b' there acc h w. ground (arith, acc))
Move-Inv s i {pc} {pc'} {q} v at (leaves {n} {key} e) =
    moved s i pc pc' q key end_wait v at e (λ o ne. refl) (λ o ne. ground arith)
      (λ ks a b a' b' there acc h w. ground (arith, acc))
Move-Inv s i {pc} {pc'} {q} v at (pins {n} {key} identity) =
    quiet s i pc pc' q v at (pin_some-states identity key s.pool) (λ o. (refl, refl))
Move-Inv s i {pc} {pc'} {q} v at (answers {n} {key} {status} u out now e) =
    marked s i pc pc' q key v at (attempt-effect s.pool q key u out now (sent status) e)
      (λ o. (refl, refl))
Move-Inv s i {pc} {pc'} {q} v at (fails {n} {key} u out now reason e) =
    marked s i pc pc' q key v at (attempt-effect s.pool q key u out now (retryable reason) e)
      (λ o. (refl, refl))
Move-Inv s i {pc} {pc'} {q} v at (settles {n} {key} {status} e) =
    let (r, m, same) = settle-effect s.pool q key (ltb status 400) e in
    let w = healthy s i pc pc' r key (confirm (ltb status 400)) v at m (λ o. (refl, refl)) in
    λ k ks there. w k ks (sym (ap (λ ss. get_elem? ss k) same) ∙ there)
Move-Inv s i {pc} {pc'} {q} v at (confirms {n} {key} identity) =
    quiet s i pc pc' q v at (pin_some-states identity key s.pool) (λ o. (refl, refl))
Move-Inv s i {pc} {pc'} {q} v at (ends {n} {key} e) =
    freed s i pc pc' q key v at e (λ o. (refl, refl)) (λ o. refl)
Move-Inv s i {pc} {pc'} {q} v at (unpins {n} {key} identity) =
    quiet s i pc pc' q v at (unpin_some-states identity key s.pool) (λ o. (refl, refl))
Move-Inv s i {pc} {pc'} {q} v at (retries {n} {key} few e) =
    freed s i pc pc' q key v at e (λ o. (refl, refl)) (λ o. refl)
Move-Inv s i {pc} {pc'} {q} v at (gives_up {n} {key} many e) =
    freed s i pc pc' q key v at e (λ o. (refl, refl)) (λ o. refl)

Step-Inv : {s u : Program} → Inv (view s) → Step s u → Inv (view u)
Step-Inv {s} v (moves i at move made) =
    subst (λ x. Inv (view x)) (sym made) (Move-Inv s i v at move)
Step-Inv {s} v (looks key now {q} e made) =
    subst (λ x. Inv (view x)) (sym made)
      (Reach-Inv v (
        Interleaving.Reach.next Interleaving.Reach.here (
          Interleaving.Step.marks key (λ h. observe h now) q (observe-on_health s.pool q key now e)
            refl)))
Step-Inv {s} v (advises q same made) =
    subst (λ x. Inv (view x)) (sym made)
      (λ key ks at. v key ks (sym (ap (λ ss. get_elem? ss key) same) ∙ at))

pub Reach-view : {s u : Program} → Inv (view s) → Reach s u → Inv (view u)
Reach-view v here = v
Reach-view v (next r st) = Step-Inv (Reach-view v r) st
