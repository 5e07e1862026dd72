-- ===== src/Threads/Limits.antt =====
-- src/pool.rs: the limits of a key, which no operation of a thread changes, and the number of threads.
use ollamux.Base.{
  ℕ, ◌≡◌, refl, sym, ap, ◌∙◌, subst, Option, none, some, get_elem?, length, length-set, ltb, ◌==◌,
  Bool-cases, inl, inr, arith,
}
use ollamux.Pool.{KeyState, Pool, modify, observe_key}
use ollamux.Pool.Marks.{on_health, confirm}
use ollamux.Pool.Marks.Laws.{modify-frame}
use ollamux.Pool.Admit.{take_slot, free_slot, start_wait, end_wait, release, leave_wait}
use ollamux.Pool.Admit.Affine.{pinned_key-states}
use ollamux.Pool.Admit.Held.{try_acquire-refused}
use ollamux.Pool.Interleaving.{try_acquire-eq-some, enter_wait-eq-some}
use ollamux.Proxy.{sent, retryable}
use ollamux.Proxy.Slots.{pin_some-states, unpin_some-states}
use ollamux.Threads.Effects.{HealthOnly, attempt-effect, settle-effect, enter_wait-refused}
use ollamux.Threads.{
  Pc, Move, begins, reads, recalls, rejects, takes, misses, enters, overflows, wins, sleeps,
  times_out, leaves, pins, answers, fails, settles, confirms, ends, unpins, retries, gives_up,
  Program, Step, moves, looks, advises, Reach, here, next,
}

abbrev pub limits_of : Option KeyState → Option (ℕ × ℕ)
limits_of none = none
limits_of (some ks) = some (ks.concurrency, ks.waiter_cap)

-- The concurrency of a key and the cap on its waiters.
abbrev pub limits_at : Pool → ℕ → Option (ℕ × ℕ)
limits_at p key = limits_of (get_elem? p.states key)

abbrev pub SameLimits : Pool → Pool → Type 0
SameLimits p q = (key : ℕ) → limits_at q key ≡ limits_at p key

same-SameLimits : (p q : Pool) → q.states ≡ p.states → SameLimits p q
same-SameLimits p q e key = ap (λ ss. limits_of (get_elem? ss key)) e

modify-SameLimits :
    (p q : Pool) (key : ℕ) (f : KeyState → KeyState)
    → ((ks : KeyState) → limits_of (some (f ks)) ≡ limits_of (some ks))
    → modify p key f ≡ some q
    → SameLimits p q
modify-SameLimits p q key f neutral e i =
    let (ks, found, written, len, others) = modify-frame p q key f e in
    elim (Bool-cases (key == i)) [
      | inl same ↦
          let eq : key ≡ i = ground arith in
          ap (limits_at q) (sym eq)
          ∙ ap limits_of written
          ∙ neutral ks
          ∙ sym (ap limits_of found)
          ∙ ap (limits_at p) eq
      | inr differ ↦ ap limits_of (others i (λ h. ground arith))
    ]

HealthOnly-SameLimits : (p q : Pool) (key : ℕ) → HealthOnly p q key → SameLimits p q
HealthOnly-SameLimits p q key (inl e) = same-SameLimits p q (ap (λ (r : Pool). r.states) e)
HealthOnly-SameLimits p q key (inr (g, e)) = modify-SameLimits p q key (on_health g) (λ ks. refl) e

Move-SameLimits : {pc pc' : Pc} (p q : Pool) → Move p pc q pc' → SameLimits p q
unfolding release leave_wait observe_key
Move-SameLimits p q begins = same-SameLimits p p refl
Move-SameLimits p q (reads key now e) =
    modify-SameLimits p q key (λ ks. observe_key ks now) (λ ks. refl) e
Move-SameLimits p q (recalls id) = same-SameLimits p q (pinned_key-states p id)
Move-SameLimits p q rejects = same-SameLimits p p refl
Move-SameLimits p q (takes {n} {key} e) =
    modify-SameLimits p q key take_slot (λ ks. refl) (try_acquire-eq-some p q key e).0
Move-SameLimits p q (misses key e) =
    same-SameLimits p q (ap (λ (r : Pool). r.states) (try_acquire-refused p q key e))
Move-SameLimits p q (enters {n} {key} e) =
    modify-SameLimits p q key start_wait (λ ks. refl) (enter_wait-eq-some p q key e).0
Move-SameLimits p q (overflows key e) =
    same-SameLimits p q (ap (λ (r : Pool). r.states) (enter_wait-refused p q key e))
Move-SameLimits p q (wins {n} {key} e) =
    modify-SameLimits p q key take_slot (λ ks. refl) (try_acquire-eq-some p q key e).0
Move-SameLimits p q (sleeps {n} {key} e) =
    same-SameLimits p q (ap (λ (r : Pool). r.states) (try_acquire-refused p q key e))
Move-SameLimits p q (times_out {n} {key} e) = modify-SameLimits p q key end_wait (λ ks. refl) e
Move-SameLimits p q (leaves {n} {key} e) = modify-SameLimits p q key end_wait (λ ks. refl) e
Move-SameLimits p q (pins {n} {key} identity) = same-SameLimits p q (pin_some-states identity key p)
Move-SameLimits p q (answers {n} {key} {status} u out now e) =
    HealthOnly-SameLimits p q key (attempt-effect p q key u out now (sent status) e)
Move-SameLimits p q (fails {n} {key} u out now reason e) =
    HealthOnly-SameLimits p q key (attempt-effect p q key u out now (retryable reason) e)
Move-SameLimits p q (settles {n} {key} {status} e) =
    let (r, m, same) = settle-effect p q key (ltb status 400) e in
    λ k.
      same-SameLimits r q same k
      ∙ modify-SameLimits p r key (on_health (confirm (ltb status 400))) (λ ks. refl) m k
Move-SameLimits p q (confirms {n} {key} identity) =
    same-SameLimits p q (pin_some-states identity key p)
Move-SameLimits p q (ends {n} {key} e) = modify-SameLimits p q key free_slot (λ ks. refl) e
Move-SameLimits p q (unpins {n} {key} identity) =
    same-SameLimits p q (unpin_some-states identity key p)
Move-SameLimits p q (retries {n} {key} few e) = modify-SameLimits p q key free_slot (λ ks. refl) e
Move-SameLimits p q (gives_up {n} {key} many e) = modify-SameLimits p q key free_slot (λ ks. refl) e

-- A step keeps the limits of the keys and the number of threads.
abbrev pub Fixed : Program → Program → Type 0
Fixed s u = SameLimits s.pool u.pool × (length u.threads ≡ length s.threads)

Step-Fixed : {s u : Program} → Step s u → Fixed s u
unfolding observe_key
Step-Fixed {s} (moves i {pc} {pc'} {q} at move made) =
    subst (Fixed s) (sym made) (Move-SameLimits s.pool q move, length-set s.threads i pc')
Step-Fixed {s} (looks key now {q} e made) =
    subst (Fixed s) (sym made)
      (modify-SameLimits s.pool q key (λ ks. observe_key ks now) (λ ks. refl) e, refl)
Step-Fixed {s} (advises q same made) =
    subst (Fixed s) (sym made) (same-SameLimits s.pool q same, refl)

pub Reach-Fixed : {s u : Program} → Reach s u → Fixed s u
Reach-Fixed here = (λ key. refl, refl)
Reach-Fixed (next r st) =
    let (l, n) = Reach-Fixed r in let (l', n') = Step-Fixed st in (λ key. l' key ∙ l key, n' ∙ n)
