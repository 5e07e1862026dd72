-- ===== src/Pool/Admit/Ready.antt =====
-- src/pool.rs: a key that can serve at once, and that it stays so while it is only looked at.
use ollamux.Base.{
  ℕ, ◌≡◌, refl, sym, ap, ◌∙◌, Bool, true, false, not, ◌&&◌, Option, some, ◌>>=◌, get_elem?, set,
  get_elem?-set_self, get_elem?-lt, ltb, bind-some, if-elim, Bool-cases, Option-cases, inl, inr,
  arith,
}
use ollamux.Affinity.{LruMap}
use ollamux.Affinity.Entries.{lookup}
use ollamux.Affinity
use ollamux.Pool.{KeyState, Pool, modify, observe_key, pin, pinned_key}
use ollamux.Pool.Quota.{is_over_quota}
use ollamux.Pool.Select.{is_up}
use ollamux.Pool.Admit.{try_acquire, state_up, try_pinned, take_slot}
use ollamux.Pool.Admit.Admitted.{observe_twice}

-- The key can serve at once: it is up, under quota and has a free slot.
pub record Ready (p : Pool) (key now : ℕ) : Type 0 where
  pub ks : KeyState
  pub found : get_elem? p.states key ≡ some ks
  pub is_up_now : is_up (observe_key ks now).health.state ≡ true
  pub under_quota : is_over_quota p key ≡ false
  pub free : ltb ks.held ks.concurrency ≡ true

-- The state of the key is written.
abbrev written : Pool → ℕ → KeyState → Pool
written p key ks = record p { states = set p.states key ks }

written-found :
    (p : Pool) (key : ℕ) (old ks : KeyState)
    → get_elem? p.states key ≡ some old
    → get_elem? (written p key ks).states key ≡ some ks
written-found p key old ks found =
    get_elem?-set_self p.states key ks (get_elem?-lt p.states key found)

modify-written :
    (p : Pool) (key : ℕ) (f : KeyState → KeyState) (ks : KeyState)
    → get_elem? p.states key ≡ some ks
    → modify p key f ≡ some (written p key (f ks))
unfolding modify
modify-written p key f ks found =
    ap (λ o. o >>= λ k. some (record p { states = set p.states key (f k) })) found

state_up-written :
    (p : Pool) (key now : ℕ) (ks : KeyState)
    → get_elem? p.states key ≡ some ks
    → state_up p key now
      ≡ some (written p key (observe_key ks now), is_up (observe_key ks now).health.state)
unfolding state_up
state_up-written p key now ks found =
    ap
      (λ o. o >>= λ k. modify p key (λ s. observe_key s now) >>= λ q.
        some (q, is_up (observe_key k now).health.state))
      found
    ∙ ap (λ o. o >>= λ q. some (q, is_up (observe_key ks now).health.state))
        (modify-written p key (λ s. observe_key s now) ks found)

is_over_quota-written :
    (p : Pool) (key : ℕ) (ks : KeyState)
    → is_over_quota (written p key ks) key ≡ is_over_quota p key
unfolding is_over_quota
is_over_quota-written p key ks = refl

free-observe :
    (ks : KeyState) (now : ℕ)
    → ltb (observe_key ks now).held (observe_key ks now).concurrency ≡ ltb ks.held ks.concurrency
unfolding observe_key
free-observe ks now = refl

try_acquire-free :
    (p : Pool) (key : ℕ) (ks : KeyState)
    → get_elem? p.states key ≡ some ks
    → ltb ks.held ks.concurrency ≡ true
    → try_acquire p key ≡ some (written p key (take_slot ks), true)
unfolding try_acquire
try_acquire-free p key ks found free = ground (arith, modify-written p key take_slot ks found)

pub Ready-try_pinned :
    (p : Pool) (id key now : ℕ)
    → Ready p key now
    → (r : Pool) × (try_pinned p id key now ≡ some (r, true))
unfolding try_pinned
Ready-try_pinned p id key now v =
    let seen = written p key (observe_key v.ks now) in
    let taken =
      try_acquire-free seen key (observe_key v.ks now)
        (written-found p key v.ks (observe_key v.ks now) v.found)
        (free-observe v.ks now ∙ v.free) in
    (
      pin (written seen key (take_slot (observe_key v.ks now))) id key,
      ground (
        arith,
        state_up-written p key now v.ks v.found,
        v.is_up_now,
        is_over_quota-written p key (observe_key v.ks now),
        v.under_quota,
        taken,
      ),
    )

get-again :
    (l : LruMap) (id key : ℕ)
    → (Affinity.get l id).1 ≡ some key
    → (Affinity.get (Affinity.get l id).0 id).1 ≡ some key
unfolding Affinity.get
get-again l id key e = elim (Option-cases (lookup id l.entries)) [
  | inl n ↦ absurd (ground arith)
  | inr (k, s) ↦ ground arith
]

pub pinned_key-again :
    (p q : Pool) (id key : ℕ)
    → (pinned_key p id).1 ≡ some key
    → q.affinity ≡ (pinned_key p id).0.affinity
    → q.affinity_enabled ≡ p.affinity_enabled
    → (pinned_key q id).1 ≡ some key
unfolding pinned_key
pinned_key-again p q id key e a on = elim (Bool-cases p.affinity_enabled) [
  | inr off ↦ absurd (ground arith)
  | inl enabled ↦ ground (arith, get-again p.affinity id key (ground arith))
]

pub pinned_key-enabled :
    (p : Pool) (id : ℕ) → (pinned_key p id).0.affinity_enabled ≡ p.affinity_enabled
unfolding pinned_key
pinned_key-enabled p id = ground arith

pub pinned_key-Ready :
    (q : Pool) (id key now : ℕ) → Ready q key now → Ready (pinned_key q id).0 key now
unfolding pinned_key is_over_quota
pinned_key-Ready q id key now v =
    if-elim (λ (r : Pool × Option ℕ). Ready r.0 key now) q.affinity_enabled _ _
      (λ on. record {
        ks = v.ks;
        found = v.found;
        is_up_now = v.is_up_now;
        under_quota = v.under_quota;
        free = v.free;
      })
      (λ off. v)

-- What a reading of the state of the key leaves.
pub state_up-Ready :
    (p q : Pool) (key now : ℕ) (sel : Bool) (ks : KeyState)
    → state_up p key now ≡ some (q, sel)
    → get_elem? q.states key ≡ some ks
    → (sel && not (is_over_quota q key) && ltb ks.held ks.concurrency) ≡ true
    → Ready q key now × (q.affinity ≡ p.affinity) × (q.affinity_enabled ≡ p.affinity_enabled)
unfolding state_up
state_up-Ready p q key now sel ks seen found fit =
    let (old, there, more) = bind-some (get_elem? p.states key) _ _ seen in
    let made = sym (state_up-written p key now old there) ∙ seen in
    let same : written p key (observe_key old now) ≡ q = ground arith in
    let read : is_up (observe_key old now).health.state ≡ sel = ground arith in
    let now_found = written-found p key old (observe_key old now) there in
    let is_ks : ks ≡ observe_key old now = ground arith in
    (
      record {
        ks = ks;
        found = found;
        is_up_now = ground (arith, observe_twice old now);
        under_quota = ground arith;
        free = ground arith;
      },
      ap (λ r. r.affinity) (sym same),
      ap (λ r. r.affinity_enabled) (sym same),
    )
