-- ===== src/Proxy/Route/Slots.antt =====
-- src/pool.rs, src/usage.rs: what the endpoints of the proxy's own call leaves the slots as they are.
use ollamux.Base.{
  ℕ, zero, suc, ◌≡◌, refl, subst, Bool, Option, some, List, [], ◌∷◌, get_elem?, length, Bool-cases,
  Option-cases, bind-some, if-elim, option-elim, inl, inr, arith,
}
use ollamux.Snapshot.{Floats}
use ollamux.Pool.{Pool, KeyState, observe_key, suffix_of}
use ollamux.Pool.Quota.{publish_usage}
use ollamux.Pool.Select.{any_up, healthy_any, is_up}
use ollamux.Pool.Admit.Held.{slots_of, SameSlots, SameSlots-trans}
use ollamux.Pool.Info.{KeyInfo, info_from, info}
use ollamux.Usage.Tracker.{
  Fetched, Clock, Tracker, RoundResult, conclude, do_fetch_inner, round_rows, wait_or_peek, refresh,
  fresh_snapshot, attempt_cooldown_left,
}
use ollamux.Usage.Tracker

-- The slots of two lists of states are the same.
abbrev SameList : List KeyState → List KeyState → Type 0
SameList ss us = (i : ℕ) → slots_of (get_elem? us i) ≡ slots_of (get_elem? ss i)

cons-SameList :
    (k m : KeyState) (ss us : List KeyState)
    → slots_of (some m) ≡ slots_of (some k)
    → SameList ss us
    → SameList (k ∷ ss) (m ∷ us)
cons-SameList k m ss us h e zero = h
cons-SameList k m ss us h e (suc i) = e i

observe_key-slots :
    (ks : KeyState) (now : ℕ) → slots_of (some (observe_key ks now)) ≡ slots_of (some ks)
unfolding observe_key
observe_key-slots ks now = refl

any_up-SameList : (ss : List KeyState) (now : ℕ) → SameList ss (any_up ss now).0
unfolding any_up
any_up-SameList [] now = λ i. refl
any_up-SameList (ks ∷ ss) now =
    if-elim (λ (r : List KeyState × Bool). SameList (ks ∷ ss) r.0)
      (is_up (observe_key ks now).health.state) _ _
      (λ up. cons-SameList ks (observe_key ks now) ss ss (observe_key-slots ks now) (λ i. refl))
      (λ down.
        cons-SameList ks (observe_key ks now) ss _ (observe_key-slots ks now)
          (any_up-SameList ss now))

info_from-SameList :
    (p : Pool) (i : ℕ) (ss us : List KeyState) (now : ℕ) (rows : List KeyInfo)
    → info_from p i ss now ≡ some (us, rows)
    → SameList ss us
unfolding info_from
info_from-SameList p i [] us now rows e =
    subst (SameList []) {x = []} {y = us} (ground arith) (λ j. refl)
info_from-SameList p i (ks ∷ ss) us now rows e =
    let ((states, more), later, e') = bind-some (info_from p (suc i) ss now) _ _ e in
    let (sfx, named, made) = bind-some (suffix_of p i) _ _ e' in
    subst (SameList (ks ∷ ss)) {x = observe_key ks now ∷ states} {y = us} (ground arith) (
      cons-SameList ks (observe_key ks now) ss states (observe_key-slots ks now)
        (info_from-SameList p (suc i) ss states now more later))

pub info-SameSlots :
    (p q : Pool) (now : ℕ) (rows : List KeyInfo) → info p now ≡ some (q, rows) → SameSlots p q
unfolding info
info-SameSlots p q now rows e =
    let ((states, more), read, made) = bind-some (info_from p 0 p.states now) _ _ e in
    subst (SameSlots p) {x = record p { states = states }} {y = q} (ground arith)
      (info_from-SameList p 0 p.states states now more read)

pub healthy_any-SameSlots : (p : Pool) (now : ℕ) → SameSlots p (healthy_any p now).0
unfolding healthy_any
healthy_any-SameSlots p now = any_up-SameList p.states now

module _ {F : Type 0} (fl : Floats F) where
  -- The step leaves the slots of `t`, or it panics.
  abbrev pub KeepsSlots : {A : Type 0} → Tracker F → Option (Tracker F × A) → Type 0
  KeepsSlots {A} t o = (u : Tracker F) (a : A) → o ≡ some (u, a) → SameSlots t.pool u.pool

  pub done-KeepsSlots :
      {A : Type 0} (t v : Tracker F) (a : A) → SameSlots t.pool v.pool → KeepsSlots t (some (v, a))
  done-KeepsSlots t v a same u b e =
      subst (λ w. SameSlots t.pool (Tracker.pool w)) {x = v} {y = u} (ground arith) same

  conclude-KeepsSlots :
      (t : Tracker F) (c : Clock) (r : RoundResult fl) → KeepsSlots t (some (conclude fl t c r))
  unfolding conclude publish_usage
  conclude-KeepsSlots t c r = elim (Bool-cases r.any_fresh) [
    | inl fresh ↦ rw fresh (done-KeepsSlots t _ _ (λ i. refl))
    | inr stale ↦ elim (Option-cases t.snapshot) [
      | inl n ↦ rw (stale, n) (done-KeepsSlots t _ _ (λ i. refl))
      | inr (prev, s) ↦ rw (stale, s) (done-KeepsSlots t _ _ (λ i. refl))
    ]
  ]

  do_fetch_inner-KeepsSlots :
      (t : Tracker F) (fetch : ℕ → Option (Fetched F)) (c : Clock)
      → KeepsSlots t (do_fetch_inner fl t fetch c)
  unfolding do_fetch_inner
  do_fetch_inner-KeepsSlots t fetch c u snap e =
      let (r, ran, made) =
        bind-some (round_rows fl t fetch c 0 (length t.pool.states) t.backoff_until) _ _ e in
      conclude-KeepsSlots (record t { last_attempt = some c.ended; backoff_until = r.backoff }) c r
        u snap made

  wait_or_peek-KeepsSlots :
      (t : Tracker F) (fetch : ℕ → Option (Fetched F)) (c : Clock)
      → KeepsSlots t (wait_or_peek fl t fetch c)
  unfolding wait_or_peek
  wait_or_peek-KeepsSlots t fetch c =
      option-elim (KeepsSlots t) t.snapshot (do_fetch_inner fl t fetch c) (λ snap. some (t, snap))
        (λ n. do_fetch_inner-KeepsSlots t fetch c) (λ snap s. done-KeepsSlots t t snap (λ i. refl))

  pub refresh-KeepsSlots :
      (t : Tracker F) (fetch : ℕ → Option (Fetched F)) (c : Clock)
      → KeepsSlots t (refresh fl t fetch c)
  unfolding refresh
  refresh-KeepsSlots t fetch c =
      option-elim (KeepsSlots t) (attempt_cooldown_left fl t c.started)
        (do_fetch_inner fl t fetch c) (λ left. wait_or_peek fl t fetch c)
        (λ ready. do_fetch_inner-KeepsSlots t fetch c)
        (λ left cooling. wait_or_peek-KeepsSlots t fetch c)

  -- What another thread makes of the tracker leaves the slots.
  abbrev pub SteadyFetch : (Tracker F → Tracker F) → Type 0
  SteadyFetch others = (t : Tracker F) → SameSlots t.pool (Tracker.pool (others t))

  pub get-KeepsSlots :
      (t : Tracker F) (contended : Bool) (others : Tracker F → Tracker F)
      (fetch : ℕ → Option (Fetched F)) (c : Clock)
      → SteadyFetch others
      → KeepsSlots t (Tracker.get fl t contended others fetch c)
  unfolding Tracker.get
  get-KeepsSlots t contended others fetch c steady =
      option-elim (KeepsSlots t) (fresh_snapshot fl t c.started) _ (λ snap. some (t, snap))
        (λ n.
          if-elim (KeepsSlots t) contended _ _
            (λ busy.
              option-elim (KeepsSlots t) t.snapshot _ (λ snap. some (t, snap)) (λ n. after_others)
                (λ snap s. done-KeepsSlots t t snap (λ i. refl)))
            (λ free. refresh-KeepsSlots t fetch c))
        (λ snap s. done-KeepsSlots t t snap (λ i. refl))
    where
      after_others : KeepsSlots t (wait_or_peek fl (others t) fetch c)
      after_others u snap e =
          SameSlots-trans t.pool (others t).pool u.pool (steady t)
            (wait_or_peek-KeepsSlots (others t) fetch c u snap e)
