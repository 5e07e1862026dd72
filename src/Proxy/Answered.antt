-- ===== src/Proxy/Answered.antt =====
-- src/proxy.rs: `proxy` comes to an end, whatever the path and the body.
use ollamux.Base.{
  ℕ, ◌+◌, ◌≤◌, ◌≡◌, refl, sym, ap, ◌∙◌, Bool, false, not, ltb, ◌&&◌, Option, none, some, List, [],
  ◌∷◌, All, length, Text, inl, inr, if-elim, arith,
}
use ollamux.Affinity.{LruMap, get}
use ollamux.Affinity.Entries.{lookup}
use ollamux.Affinity.Identity.{Value, identity_from}
use ollamux.Pool.{Pool, pinned_key}
use ollamux.Pool.Admit.{Round, state_up}
use ollamux.Pool.Admit.Affine.{pinned_key-states, state_up-SameSlots}
use ollamux.Pool.Admit.Pinned.{usable, pin_usable-usable}
use ollamux.Pool.Quota.{is_over_quota}
use ollamux.Pool.Admit.Conservation.{Steady}
use ollamux.Pool.Admit.Held.{Fits, Fits-SameSlots, SameSlots, same_states}
use ollamux.Pool.Admit.Progress.{PinInRange, state_up-Returns}
use ollamux.Pool.Admit.Returns.{InRange, InRange-found, InRange-SameSlots, Returns}
use ollamux.Pool.Admit.Slots.{Ends}
use ollamux.Proxy.{
  Body, whole, too_large, broken, attempt_no_auth, is_no_auth_path, Turn, read_pin, proxy_no_auth,
  proxy, wait_timeout, Outcome,
}
use ollamux.Proxy.Balance.{read_pin-SameSlots}
use ollamux.Proxy.Returns.{Ending, Attempt-cases, proxy_keyed-Returns}

-- Every pin is to a key of the pool.
abbrev pub PinsInRange : Pool → Type 0
PinsInRange p = (id key : ℕ) → lookup id p.affinity.entries ≡ some key → InRange p key

pinned_key-entries : (p : Pool) (id : ℕ) → (pinned_key p id).0.affinity.entries ≡ p.affinity.entries
unfolding pinned_key get
pinned_key-entries p id = ground arith

pinned_key-lookup :
    (p : Pool) (id key : ℕ)
    → (pinned_key p id).1 ≡ some key
    → lookup id p.affinity.entries ≡ some key
unfolding pinned_key get
pinned_key-lookup p id key e = ground arith

PinsInRange-PinInRange : (p : Pool) (identity : Option ℕ) → PinsInRange p → PinInRange p identity
PinsInRange-PinInRange p none pins = tt
PinsInRange-PinInRange p (some id) pins = λ key e. pins id key (pinned_key-lookup p id key e)

state_up-affinity :
    (p q : Pool) (key now : ℕ) (sel : Bool)
    → state_up p key now ≡ some (q, sel)
    → q.affinity ≡ p.affinity
unfolding state_up
state_up-affinity p q key now sel e = ground arith

-- Reading a pin comes to an end, and leaves the pins.
usable-Returns :
    (q : Pool) (now : ℕ) (o : Option ℕ)
    → ((key : ℕ) → o ≡ some key → InRange q key)
    → (r : Pool × Bool) × (usable q now o ≡ some r) × (r.0.affinity ≡ q.affinity)
usable-Returns q now none inside = ((q, false), refl, refl)
usable-Returns q now (some key) inside =
    let ((r, sel), read) = state_up-Returns q key now (inside key refl) in
    let here =
      InRange-SameSlots q r key (inside key refl) (state_up-SameSlots q r key now sel read) in
    let (ks, found) = InRange-found r key here in
    (
      (r, sel && not (is_over_quota r key) && ltb ks.held ks.concurrency),
      rw (read, found) refl,
      state_up-affinity q r key now sel read,
    )

read_pin-Returns :
    (p : Pool) (identity : Option ℕ) (now : ℕ)
    → PinsInRange p
    → (r : Pool × Bool) × (read_pin p identity now ≡ some r)
      × (r.0.affinity.entries ≡ p.affinity.entries)
unfolding read_pin
read_pin-Returns p none now pins = ((p, false), refl, refl)
read_pin-Returns p (some id) now pins =
    let seen = (pinned_key p id).0 in
    let same = same_states p seen (pinned_key-states p id) in
    let (r, read, kept) =
      usable-Returns seen now (pinned_key p id).1
        λ key e. InRange-SameSlots p seen key (pins id key (pinned_key-lookup p id key e)) same in
    (
      r,
      pin_usable-usable p id now ∙ read,
      ap (λ l. LruMap.entries l) kept ∙ pinned_key-entries p id,
    )

PinsInRange-kept :
    (p q : Pool)
    → PinsInRange p
    → SameSlots p q
    → q.affinity.entries ≡ p.affinity.entries
    → PinsInRange q
PinsInRange-kept p q pins same kept = λ id key e.
    InRange-SameSlots p q key (pins id key (sym (ap (λ es. lookup id es) kept) ∙ e)) same

proxy_no_auth-Returns :
    (p : Pool) (turns : List Turn) → 1 ≤ length turns → Returns (proxy_no_auth p turns)
unfolding proxy_no_auth
proxy_no_auth-Returns p [] few = absurd (omega arith)
proxy_no_auth-Returns p (t ∷ ts) few =
    elim (Attempt-cases (attempt_no_auth t.upstream t.delivery)) [
      | inl (status, e) ↦ rw (proxy_no_auth, e) (_, refl)
      | inr (reason, e) ↦ rw (proxy_no_auth, e) (_, refl)
    ]

-- A request comes to an end, whatever its path and its body.
pub proxy-Returns :
    (from_slice : List ℕ → Option Value) (to_writer : Value → Option (List ℕ)) (p : Pool)
    (body : Body) (sub_path : Text) (now : ℕ) (rounds : List Round) (turns : List Turn)
    → Fits p
    → PinsInRange p
    → All Steady rounds
    → Ends (now + wait_timeout) rounds
    → All Ending turns
    → 3 ≤ length turns
    → Returns (proxy from_slice to_writer p body sub_path now rounds turns)
unfolding proxy
proxy-Returns from_slice to_writer p broken sub_path now rounds turns fits pins steady ends ending
      enough =
    (_, refl)
proxy-Returns from_slice to_writer p too_large sub_path now rounds turns fits pins steady ends
      ending enough =
    (_, refl)
proxy-Returns from_slice to_writer p (whole bytes) sub_path now rounds turns fits pins steady ends
      ending enough =
    let identity = identity_from to_writer (from_slice bytes) sub_path in
    let ((q, usable_before), read, kept) = read_pin-Returns p identity now pins in
    let same = read_pin-SameSlots p q identity now usable_before read in
    let keyed =
      proxy_keyed-Returns q identity usable_before now rounds turns (Fits-SameSlots p q fits same)
        (PinsInRange-PinInRange q identity (PinsInRange-kept p q pins same kept)) steady ends ending
        enough in
    rw read (
      if-elim (Returns {A = Pool × Outcome}) (is_no_auth_path sub_path) _ _
        (λ free. proxy_no_auth-Returns q turns (omega arith))
        (λ wants. ((keyed.0, keyed.1), keyed.2)))
