-- ===== src/Threads/Effects.antt =====
-- src/pool.rs, src/proxy.rs: what the operations of a request change in the states of the keys.
use ollamux.Base.{
  ℕ, ◌≡◌, refl, ap, ◌∙◌, true, false, Bool, Option, none, some, ◌>>=◌, get_elem?, leb, ◌==◌, ◌&&◌,
  Bool-cases, Option-cases, inl, inr, ◌⊎◌, arith, Text,
}
use ollamux.Pool.{Health, KeyState, Pool, modify, observe, observe_key}
use ollamux.Pool.Marks.{
  on_health, die, cool, strike, confirm, remember, mark_dead, mark_cooldown, mark_strike, settle,
}
use ollamux.Pool.Admit.{enter_wait}
use ollamux.Pool.Interleaving.{Accounted}
use ollamux.Proxy.{
  Upstream, success, error_status, no_answer, Delivery, Attempt, is_unauthorized, cooldown_of,
  classify, attempt,
}

-- The pool is as it was, or the health of the key was changed.
abbrev pub HealthOnly : Pool → Pool → ℕ → Type 0
HealthOnly p q key = (q ≡ p) ⊎ ((g : Health → Health) × (modify p key (on_health g) ≡ some q))

abbrev AllHealth : Pool → ℕ → Option (Pool × Attempt) → Type 0
AllHealth p key o = (q : Pool) (a : Attempt) → o ≡ some (q, a) → HealthOnly p q key

marked-AllHealth :
    (p : Pool) (key : ℕ) (o : Option Pool) (b : Attempt) (g : Health → Health)
    → modify p key (on_health g) ≡ o
    → AllHealth p key (◌>>=◌ {B = Pool × Attempt} o (λ r. some (r, b)))
marked-AllHealth p key none b g m q a e = absurd (ground arith)
marked-AllHealth p key (some r) b g m q a e =
    inr (g, m ∙ ap (λ (x : Pool × Attempt). some x.0) {x = (r, b)} {y = (q, a)} (ground arith))

classify-AllHealth :
    (p : Pool) (key status : ℕ) (retry_after : Option ℕ) (snip : Text) (out : Delivery) (now : ℕ)
    → AllHealth p key (classify p key status retry_after snip out now)
unfolding classify mark_dead mark_cooldown mark_strike
classify-AllHealth p key status retry_after snip out now =
    elim (Bool-cases (is_unauthorized status snip)) [
      | inl e ↦ rw e (marked-AllHealth p key _ _ (die _) refl)
      | inr e ↦ elim (Bool-cases (status == 429)) [
        | inl f ↦ rw (e, f) (marked-AllHealth p key _ _ (cool now (cooldown_of retry_after) _) refl)
        | inr f ↦ elim (Bool-cases (leb 500 status && leb status 599)) [
          | inl g ↦ rw (e, f, g) (marked-AllHealth p key _ _ (strike now _) refl)
          | inr g ↦ rw (e, f, g) (λ q a h. inl (ground arith))
        ]
      ]
    ]

attempt-AllHealth :
    (p : Pool) (key : ℕ) (u : Upstream) (out : Delivery) (now : ℕ)
    → AllHealth p key (attempt p key u out now)
unfolding attempt
attempt-AllHealth p key (success status) out now q a e = inl (ground arith)
attempt-AllHealth p key (error_status status retry_after snip) out now q a e =
    classify-AllHealth p key status retry_after snip out now q a e
attempt-AllHealth p key (no_answer x) out now q a e = inl (ground arith)

pub attempt-effect :
    (p q : Pool) (key : ℕ) (u : Upstream) (out : Delivery) (now : ℕ) (a : Attempt)
    → attempt p key u out now ≡ some (q, a)
    → HealthOnly p q key
attempt-effect p q key u out now a e = attempt-AllHealth p key u out now q a e

remember-same : (ok : Bool) (key : ℕ) (p : Pool) → (remember ok key p).states ≡ p.states
remember-same true key p = refl
remember-same false key p = refl

pub settle-effect :
    (p q : Pool) (key : ℕ) (ok : Bool)
    → settle p key ok ≡ some q
    → (r : Pool) × (modify p key (on_health (confirm ok)) ≡ some r) × (q.states ≡ r.states)
unfolding settle
settle-effect p q key ok e = elim (Option-cases (modify p key (on_health (confirm ok)))) [
  | inl out ↦ absurd (ground arith)
  | inr (r, made) ↦ (
    r,
    made,
    ap (λ (x : Pool). x.states) {x = q} {y = remember ok key r} (ground arith)
        ∙ remember-same ok key r,
  )
]

pub observe-on_health :
    (p q : Pool) (key now : ℕ)
    → modify p key (λ ks. observe_key ks now) ≡ some q
    → modify p key (on_health (λ h. observe h now)) ≡ some q
unfolding observe_key
observe-on_health p q key now e = e

pub enter_wait-refused : (p q : Pool) (key : ℕ) → enter_wait p key ≡ some (q, false) → q ≡ p
unfolding enter_wait modify
enter_wait-refused p q key e = elim (Option-cases (get_elem? p.states key)) [
  | inl out ↦ absurd (ground arith)
  | inr (ks, found) ↦ ground arith
]

pub Accounted-on_health :
    (ks : KeyState) (g : Health → Health) (a b a' b' : ℕ)
    → Accounted a b ks
    → a' ≡ a
    → b' ≡ b
    → Accounted a' b' (on_health g ks)
Accounted-on_health ks g a b a' b' acc e f = ground (arith, acc)
