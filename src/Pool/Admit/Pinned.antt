-- ===== src/Pool/Admit/Pinned.antt =====
-- src/pool.rs: `pin_usable` and `admit_affine` agree: a pin that is found usable is served.
use ollamux.Base.{
  ℕ, ◌≡◌, refl, sym, ap, ◌∙◌, Bool, true, false, not, ◌&&◌, Option, none, some, ◌>>=◌, List,
  get_elem?, ltb, if◌then◌else◌, bind-some, arith,
}
use ollamux.Pool.{Pool, pinned_key}
use ollamux.Pool.Quota.{is_over_quota}
use ollamux.Pool.Admit.{
  Round, admitted, state_up, try_pinned, admit_affine, pin_usable, admit_and_pin,
}
use ollamux.Pool.Admit.Ready.{
  Ready, Ready-try_pinned, pinned_key-again, pinned_key-enabled, pinned_key-Ready, state_up-Ready,
}

-- The reading of a pin, apart from where the pin comes from.
abbrev pub usable : Pool → ℕ → Option ℕ → Option (Pool × Bool)
usable q now none = some (q, false)
usable q now (some key) = state_up q key now >>= λ (r, sel). get_elem? r.states key >>= λ ks.
    some (r, sel && not (is_over_quota r key) && ltb ks.held ks.concurrency)

pub pin_usable-usable :
    (p : Pool) (id now : ℕ)
    → pin_usable p id now ≡ usable (pinned_key p id).0 now (pinned_key p id).1
unfolding pin_usable
pin_usable-usable p id now = go (pinned_key p id)
  where
    go :
        (r : Pool × Option ℕ)
        → ◌≡◌ {A = Option (Pool × Bool)}
            (elim r.1 [
              | none ↦ some (r.0, false)
              | some key ↦ state_up r.0 key now >>= λ (u, sel). get_elem? u.states key >>= λ ks.
                  some (u, sel && not (is_over_quota u key) && ltb ks.held ks.concurrency)
            ])
            (usable r.0 now r.1)
    go (q, none) = refl
    go (q, some key) = refl

usable-Ready :
    (p q : Pool) (now : ℕ) (o : Option ℕ)
    → usable p now o ≡ some (q, true)
    → (key : ℕ) × (o ≡ some key)
      × Ready q key now
      × (q.affinity ≡ p.affinity)
      × (q.affinity_enabled ≡ p.affinity_enabled)
usable-Ready p q now none e = cc
usable-Ready p q now (some key) e =
    let ((r, sel), seen, e') = bind-some (state_up p key now) _ _ e in
    let (ks, found, made) = bind-some (get_elem? r.states key) _ _ e' in
    let same : r ≡ q = ground arith in
    let (ready, a, on) =
      state_up-Ready p q key now sel ks (ground arith) (ground arith) (ground arith) in
    (key, refl, ready, a, on)

admit_affine-served :
    (q : Pool) (id timeout now key : ℕ) (rounds : List Round) (r : Pool)
    → (pinned_key q id).1 ≡ some key
    → try_pinned (pinned_key q id).0 id key now ≡ some (r, true)
    → admit_affine q timeout (some id) now rounds ≡ some (r, admitted key)
unfolding admit_affine
admit_affine-served q id timeout now key rounds r pinned served =
    ap
      (λ (o : Option ℕ). elim o [
        | none ↦ admit_and_pin (pinned_key q id).0 id timeout now rounds
        | some k ↦ try_pinned (pinned_key q id).0 id k now >>= λ (u, given).
            if given then some (u, admitted k) else admit_and_pin u id timeout now rounds
      ])
      pinned
    ∙ ap
        (λ (o : Option (Pool × Bool)). o >>= λ (u, given).
          if given then some (u, admitted key) else admit_and_pin u id timeout now rounds)
        served

-- `pin_usable`, whose verdict the header of the answer tells, and `admit_affine` apply the same
-- test: when the pin of a conversation is found usable, an admission at the same time, with nothing
-- between the two, gives the pinned key at once.
pub pin_usable-admit_affine :
    (p q : Pool) (id timeout now : ℕ) (rounds : List Round)
    → pin_usable p id now ≡ some (q, true)
    → (key : ℕ) × (r : Pool) × ((pinned_key p id).1 ≡ some key)
      × (admit_affine q timeout (some id) now rounds ≡ some (r, admitted key))
pin_usable-admit_affine p q id timeout now rounds e =
    let (key, pinned, ready, a, on) =
      usable-Ready (pinned_key p id).0 q now (pinned_key p id).1
        (sym (pin_usable-usable p id now) ∙ e) in
    let again = pinned_key-again p q id key pinned a (on ∙ pinned_key-enabled p id) in
    let (r, served) =
      Ready-try_pinned (pinned_key q id).0 id key now (pinned_key-Ready q id key now ready) in
    (key, r, pinned, admit_affine-served q id timeout now key rounds r again served)
