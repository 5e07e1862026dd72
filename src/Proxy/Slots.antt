-- ===== src/Proxy/Slots.antt =====
-- src/proxy.rs: a request gives back every slot that it takes, on every path.
use ollamux.Base.{
  ℕ, ◌≡◌, refl, Bool, true, false, Option, none, some, ◌>>=◌, All, leb, ◌==◌, ◌&&◌, Bool-cases,
  Option-cases, inl, inr, arith, subst, Text,
}
use ollamux.Pool.{Pool, modify, unpin}
use ollamux.Pool.Marks.{
  on_health, settle, confirm, remember, die, cool, strike, mark_dead, mark_cooldown, mark_strike,
}
use ollamux.Pool.Admit.Held.{SameSlots, same_states, SameSlots-trans, modify-SameSlots}
use ollamux.Pool.Admit.Conservation.{Steady}
use ollamux.Pool.Admit.Affine.{pin-states}
use ollamux.Proxy.{
  Upstream, success, error_status, no_answer, Delivery, Attempt, relay, is_unauthorized, classify,
  attempt, pin_some, unpin_some, Turn,
}

-- What the other threads do in a turn leaves the slots as they are.
abbrev pub SteadyTurn : Turn → Type 0
SteadyTurn t = ((p : Pool) → SameSlots p (t.others p)) × All Steady t.rounds

mark_dead-SameSlots :
    (p q : Pool) (key : ℕ) (reason : Text) → mark_dead p key reason ≡ some q → SameSlots p q
unfolding mark_dead
mark_dead-SameSlots p q key reason e =
    modify-SameSlots p q key (on_health (die reason)) (λ ks. refl) e

mark_cooldown-SameSlots :
    (p q : Pool) (key dur : ℕ) (reason : Text) (now : ℕ)
    → mark_cooldown p key dur reason now ≡ some q
    → SameSlots p q
unfolding mark_cooldown
mark_cooldown-SameSlots p q key dur reason now e =
    modify-SameSlots p q key (on_health (cool now dur reason)) (λ ks. refl) e

mark_strike-SameSlots :
    (p q : Pool) (key : ℕ) (reason : Text) (now : ℕ)
    → mark_strike p key reason now ≡ some q
    → SameSlots p q
unfolding mark_strike
mark_strike-SameSlots p q key reason now e =
    modify-SameSlots p q key (on_health (strike now reason)) (λ ks. refl) e

remember-states : (ok : Bool) (key : ℕ) (p : Pool) → (remember ok key p).states ≡ p.states
remember-states true key p = refl
remember-states false key p = refl

pub settle-SameSlots : (p q : Pool) (key : ℕ) (ok : Bool) → settle p key ok ≡ some q → SameSlots p q
unfolding settle
settle-SameSlots p q key ok e = elim (Option-cases (modify p key (on_health (confirm ok)))) [
  | inl out ↦ absurd (ground arith)
  | inr (r, made) ↦ subst (SameSlots p) {x = remember ok key r} {y = q} (ground arith) (
      SameSlots-trans p r (remember ok key r)
        (modify-SameSlots p r key (on_health (confirm ok)) (λ ks. refl) made)
        (same_states r (remember ok key r) (remember-states ok key r)))
]

-- An attempt that leaves the slots as they are, if it ends.
abbrev pub Keeps : Pool → Option (Pool × Attempt) → Type 0
Keeps p o = (q : Pool) (a : Attempt) → o ≡ some (q, a) → SameSlots p q

marked-Keeps :
    (p : Pool) (o : Option Pool) (b : Attempt)
    → ((q : Pool) → o ≡ some q → SameSlots p q)
    → Keeps p (◌>>=◌ {B = Pool × Attempt} o (λ r. some (r, b)))
marked-Keeps p none b h q a e = absurd (ground arith)
marked-Keeps p (some r) b h q a e = h q (ground arith)

relayed-Keeps : (p : Pool) (b : Attempt) → Keeps p (some (p, b))
relayed-Keeps p b q a e = same_states p q (ground arith)

classify-Keeps :
    (p : Pool) (key status : ℕ) (retry_after : Option ℕ) (snip : Text) (out : Delivery) (now : ℕ)
    → Keeps p (classify p key status retry_after snip out now)
unfolding classify
classify-Keeps p key status retry_after snip out now =
    elim (Bool-cases (is_unauthorized status snip)) [
      | inl e ↦ rw e (marked-Keeps p _ _ (λ q. mark_dead-SameSlots p q key _))
      | inr e ↦ elim (Bool-cases (status == 429)) [
        | inl f ↦ rw (e, f) (marked-Keeps p _ _ (λ q. mark_cooldown-SameSlots p q key _ _ now))
        | inr f ↦ elim (Bool-cases (leb 500 status && leb status 599)) [
          | inl g ↦ rw (e, f, g) (marked-Keeps p _ _ (λ q. mark_strike-SameSlots p q key _ now))
          | inr g ↦ rw (e, f, g) (relayed-Keeps p (relay status out))
        ]
      ]
    ]

pub attempt-Keeps :
    (p : Pool) (key : ℕ) (u : Upstream) (out : Delivery) (now : ℕ)
    → Keeps p (attempt p key u out now)
unfolding attempt
attempt-Keeps p key (success status) out now = relayed-Keeps p _
attempt-Keeps p key (error_status status retry_after snip) out now =
    classify-Keeps p key status retry_after snip out now
attempt-Keeps p key (no_answer e) out now = relayed-Keeps p _

pub pin_some-states :
    (identity : Option ℕ) (key : ℕ) (p : Pool) → (pin_some identity key p).states ≡ p.states
pin_some-states none key p = refl
pin_some-states (some id) key p = pin-states p id key

pub unpin_some-states :
    (identity : Option ℕ) (key : ℕ) (p : Pool) → (unpin_some identity key p).states ≡ p.states
unfolding unpin
unpin_some-states none key p = refl
unpin_some-states (some id) key p = refl
