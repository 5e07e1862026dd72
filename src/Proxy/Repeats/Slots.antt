-- ===== src/Proxy/Repeats/Slots.antt =====
-- src/pool.rs: a slot that is given without a wait, and given back.
use ollamux.Base.{
  ℕ, zero, suc, ◌+◌, ◌≡◌, ◌<◌, ◌^◌, refl, sym, ap, ◌∙◌, true, false, Option, none, some, ◌>>=◌,
  List, [], ◌∷◌, get_elem?, set, get_elem?-set_self, get_elem?-lt, ltb, Bool-cases, Option-cases,
  inl, inr, arith,
}
use ollamux.Pool.{KeyState, Pool, modify}
use ollamux.Pool.Select.{all_dead}
use ollamux.Pool.Admit.{
  Round, Admission, admitted, Waited, refused, full, take_slot, free_slot, start_wait, try_acquire,
  release, first_free, enter_wait, wait_loop, acquire_on, outcome, classify_empty, admit_among,
}
use ollamux.Pool.Marks.Laws.{modify-frame}
use ollamux.Pool.Interleaving.{enter_wait-eq-some}

set-set : (ss : List KeyState) (i : ℕ) (a b : KeyState) → set (set ss i a) i b ≡ set ss i b
set-set [] i a b = refl
set-set (x ∷ ss) zero a b = refl
set-set (x ∷ ss) (suc i) a b = ap (λ l. x ∷ l) (set-set ss i a b)

set-same : (ss : List KeyState) (i : ℕ) (a : KeyState) → get_elem? ss i ≡ some a → set ss i a ≡ ss
set-same [] i a e = refl
set-same (x ∷ ss) zero a e = ap (λ y. y ∷ ss) (sym (x_is_a x a e))
  where
    x_is_a : (x a : KeyState) → ◌≡◌ {A = Option KeyState} (some x) (some a) → x ≡ a
    x_is_a x a e = cc
set-same (x ∷ ss) (suc i) a e = ap (λ l. x ∷ l) (set-same ss i a e)

-- A slot that is taken at once and given back leaves the pool as it was.
pub first_free-taken :
    (p q : Pool) (keys : List ℕ) (key : ℕ)
    → first_free p keys ≡ some (q, some key)
    → try_acquire p key ≡ some (q, true)
unfolding first_free
first_free-taken p q [] key e = absurd (ground arith)
first_free-taken p q (k ∷ ks) key e = elim (Option-cases (try_acquire p k)) [
  | inl out ↦ absurd (ground arith)
  | inr ((r, true), found) ↦ ground arith
  | inr ((r, false), found) ↦ first_free-taken p q ks key (ground arith)
]

given_back :
    (ks : KeyState)
    → ltb ks.held ks.concurrency ≡ true
    → ks.concurrency < 2 ^ 32
    → free_slot (take_slot ks) ≡ ks
given_back ks free small = ground arith

pub taken_back :
    (p : Pool) (key : ℕ) (ks : KeyState)
    → get_elem? p.states key ≡ some ks
    → ltb ks.held ks.concurrency ≡ true
    → ks.concurrency < 2 ^ 32
    → release (record p { states = set p.states key (take_slot ks) }) key ≡ some p
unfolding release modify
taken_back p key ks found free small =
    ap
      (λ o. o >>= λ k.
        some (record p { states = set (set p.states key (take_slot ks)) key (free_slot k) }))
      (get_elem?-set_self p.states key (take_slot ks) (get_elem?-lt p.states key found))
    ∙ ap (λ l. some (record p { states = l }))
        (set-set p.states key (take_slot ks) (free_slot (take_slot ks))
          ∙ ap (λ k. set p.states key k) (given_back ks free small)
          ∙ set-same p.states key ks found)

busy-try :
    (p : Pool) (key : ℕ) (ks : KeyState)
    → get_elem? p.states key ≡ some ks
    → ltb ks.held ks.concurrency ≡ false
    → try_acquire p key ≡ some (p, false)
unfolding try_acquire
busy-try p key ks found busy = ground arith

refused-busy :
    (p r : Pool) (key : ℕ)
    → try_acquire p key ≡ some (r, false)
    → (ks : KeyState) × (get_elem? p.states key ≡ some ks) × (ltb ks.held ks.concurrency ≡ false)
unfolding try_acquire modify
refused-busy p r key e = elim (Option-cases (get_elem? p.states key)) [
  | inl out ↦ absurd (ground arith)
  | inr (ks, found) ↦ (ks, found, ground arith)
]

entered-busy :
    (p q : Pool) (key deadline : ℕ) (ks : KeyState)
    → get_elem? p.states key ≡ some ks
    → ltb ks.held ks.concurrency ≡ false
    → enter_wait p key ≡ some (q, true)
    → wait_loop key deadline [] q ≡ none
unfolding wait_loop
entered-busy p q key deadline ks found busy e =
    let (m, room) = enter_wait-eq-some p q key e in
    let (ks', found', written, len, others) = modify-frame p q key start_wait m in
    let same : ks' ≡ ks = ground arith in
    rw (busy-try q key (start_wait ks) (written ∙ ap (λ k. some (start_wait k)) same) busy) refl

-- With no round to wait in, a busy key gives no slot.
acquire_on-busy :
    (p s : Pool) (key timeout now : ℕ) (result : Waited) (ks : KeyState)
    → get_elem? p.states key ≡ some ks
    → ltb ks.held ks.concurrency ≡ false
    → acquire_on p key timeout now [] ≡ some (s, result)
    → result ≡ refused full
unfolding acquire_on
acquire_on-busy p s key timeout now result ks found busy e =
    elim (Option-cases (enter_wait p key)) [
      | inl out ↦ absurd (ground arith)
      | inr ((q, true), entered) ↦
          absurd (ground (arith, entered-busy p q key (now + timeout) ks found busy entered))
      | inr ((q, false), entered) ↦ ground arith
    ]

first_free-none :
    (p r : Pool) (best : ℕ) (keys : List ℕ)
    → first_free p (best ∷ keys) ≡ some (r, none)
    → (u : Pool) × (try_acquire p best ≡ some (u, false))
unfolding first_free
first_free-none p r best keys e = elim (Option-cases (try_acquire p best)) [
  | inl out ↦ absurd (ground arith)
  | inr ((u, true), found) ↦ absurd (ground arith)
  | inr ((u, false), found) ↦ (u, found)
]

first_free-same : (p r : Pool) (keys : List ℕ) → first_free p keys ≡ some (r, none) → r ≡ p
unfolding first_free
first_free-same p r [] e = ground arith
first_free-same p r (k ∷ ks) e = elim (Option-cases (try_acquire p k)) [
  | inl out ↦ absurd (ground arith)
  | inr ((u, true), found) ↦ absurd (ground arith)
  | inr ((u, false), found) ↦ first_free-same p r ks (ground arith)
]

pub at_once :
    (p q : Pool) (keys : List ℕ) (key timeout now : ℕ)
    → admit_among p keys timeout now [] ≡ some (q, admitted key)
    → first_free p keys ≡ some (q, some key)
unfolding admit_among classify_empty
at_once p q [] key timeout now e = elim (Bool-cases (all_dead p.states now).1) [
  | inl d ↦ absurd (ground arith)
  | inr d ↦ absurd (ground arith)
]
at_once p q (best ∷ keys) key timeout now e = elim (Option-cases (first_free p (best ∷ keys))) [
  | inl out ↦ absurd (ground arith)
  | inr ((r, some k), found) ↦ ground arith
  | inr ((r, none), found) ↦
      let (u, refusal) = first_free-none p r best keys found in
      let (ks, there, busy) = refused-busy p u best refusal in
      let same = first_free-same p r (best ∷ keys) found in
      elim (Option-cases (acquire_on p best timeout now [])) [
        | inl out ↦ absurd (ground arith)
        | inr ((w, result), ran) ↦
            let full_queue = acquire_on-busy p w best timeout now result ks there busy ran in
            absurd (ground arith)
      ]
]

pub from_first_free :
    (p q : Pool) (keys : List ℕ) (key timeout now : ℕ) (rounds : List Round)
    → first_free p keys ≡ some (q, some key)
    → admit_among p keys timeout now rounds ≡ some (q, admitted key)
unfolding admit_among first_free
from_first_free p q [] key timeout now rounds e = absurd (ground arith)
from_first_free p q (best ∷ keys) key timeout now rounds e =
    ap
      (λ o. ◌>>=◌ {B = Pool × Admission} o (λ (r, free). elim free [
        | some k ↦ some (r, admitted k)
        | none ↦
            acquire_on r best timeout now rounds >>= λ (s, result). some (s, outcome best result)
      ]))
      e
