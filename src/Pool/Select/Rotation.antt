-- ===== src/Pool/Select/Rotation.antt =====
-- src/pool.rs: the round-robin tie-breaker of `candidates` on an idle pool.
use native.Mathlib.Nat.{mod-eq_of_lt, mod-eq-sub-mod}
use ollamux.Base.{
  ℕ, zero, suc, ◌+◌, ◌-◌, ◌%◌, ◌^◌, ◌≤◌, ◌<◌, ◌≡◌, refl, ◌⊎◌, inl, inr, true, some, List, [], ◌∷◌,
  All, length, get_elem?, set, count, ltb, max, if◌then◌else◌, Bool-cases, ltb→lt, Option-cases,
  get_elem?-lt, length-set, arith, subst, sym, ap, ◌∙◌,
}
use ollamux.Base.Sort.{SortKey, before}
use ollamux.Pool.{KeyState, Pool, up, observe, observe_key, modify}
use ollamux.Pool.Marks.{settle, confirm, on_health}
use ollamux.Pool.Select.{observe_all, over_bit, load_x1024, rank, candidates}
use ollamux.Pool.Select.Laws.{
  selectable, candidates_lem, head_best, length-observe_all, selectable-lt,
}

abbrev pub IsIdle : KeyState → Type 0
IsIdle ks = (ks.health.state ≡ up) × (ks.held ≡ 0)

-- Every key is up and has no request in flight, and no key is over quota.
pub record Idle (p : Pool) : Type 0 where
  pub idle : All IsIdle p.states
  pub fresh : p.over_quota_mask ≡ 0
  pub last_in_range : p.rr < length p.states
  pub few : length p.states < 2 ^ 62

-- The key that comes first in an idle pool of `n` keys after a success on `last`.
abbrev pub first_after : ℕ → ℕ → ℕ
first_after n zero = 0
first_after n (suc last) = n - suc last

observe_all-IsIdle :
    (ss : List KeyState) (now : ℕ) → All IsIdle ss → All IsIdle (observe_all ss now)
unfolding observe_all observe_key
observe_all-IsIdle [] now h = tt
observe_all-IsIdle (ks ∷ ss) now h = (ground arith, observe_all-IsIdle ss now h.1)

selectable-idle :
    (ss : List KeyState) (now i : ℕ) → All IsIdle ss → i < length ss → selectable ss now i ≡ true
unfolding observe
selectable-idle [] now i h k = elim k [ ]
selectable-idle (ks ∷ ss) now zero h k = ground arith
selectable-idle (ks ∷ ss) now (suc i) h k = selectable-idle ss now i h.1 (omega arith)

load-idle : (ss : List KeyState) (i : ℕ) → All IsIdle ss → load_x1024 ss i ≡ 0
unfolding load_x1024
load-idle [] i h = refl
load-idle (ks ∷ ss) zero h = ground arith
load-idle (ks ∷ ss) (suc i) h = load-idle ss i h.1

over-fresh : (i : ℕ) → over_bit 0 i ≡ 0
unfolding over_bit
over-fresh i = ground arith

mod_once : (a n : ℕ) → n ≤ a → a < n + n → a % n ≡ a - n
mod_once a n h k = rw (mod-eq-sub-mod h) (mod-eq_of_lt (omega arith))

ord-eq :
    (n last i : ℕ)
    → last < n
    → n < 2 ^ 62
    → i < n
    → (i + last) % 2 ^ 64 % max n 1 ≡ (if ltb (i + last) n then i + last else i + last - n)
ord-eq n last i h k l =
    rw (whole, some_key)
      (elim (Bool-cases (ltb (i + last) n)) [
        | inl e ↦ rw e (mod-eq_of_lt (ltb→lt _ _ e))
        | inr e ↦ rw e (mod_once (i + last) n (ground arith) (omega arith))
      ])
  where
    whole : (i + last) % 2 ^ 64 ≡ i + last
    whole = omega arith

    some_key : max n 1 ≡ n
    some_key = omega arith

first_after-lt : (n last : ℕ) → last < n → first_after n last < n
first_after-lt n zero h = h
first_after-lt n (suc last) h = omega arith

-- The function is its own inverse.
first_after_twice : (n last : ℕ) → last < n → first_after n (first_after n last) ≡ last
first_after_twice n zero h = refl
first_after_twice n (suc last) h = go (n - suc last) (omega arith)
  where
    go : (m : ℕ) → m + suc last ≡ n → first_after n m ≡ suc last
    go zero e = absurd (omega arith)
    go (suc m) e = omega arith

-- Only `first_after` has the least tie-breaker.
ord_unique :
    (n last i : ℕ)
    → last < n
    → n < 2 ^ 62
    → i < n
    → ((first_after n last + last) % 2 ^ 64 % max n 1 < (i + last) % 2 ^ 64 % max n 1)
      ⊎ (i ≡ first_after n last)
ord_unique n zero i h k l = ground (arith, ord-eq n 0 i h k l, ord-eq n 0 0 h k h)
ord_unique n (suc last) i h k l =
    ground
      (arith, ord-eq n (suc last) i h k l, ord-eq n (suc last) (n - suc last) h k (omega arith))

not_before : (k l : SortKey) → k.over ≡ l.over → k.load ≡ l.load → k.ord < l.ord → before k l ≡ true
unfolding before
not_before k l o d h = ground arith

rank-Idle :
    (p : Pool) (now i : ℕ)
    → Idle p
    → let k = rank (candidates p now).0 i in
      (k.over ≡ 0) × (k.load ≡ 0) × (k.ord ≡ (i + p.rr) % 2 ^ 64 % max (length p.states) 1)
unfolding candidates rank
rank-Idle p now i v = (
  rw v.fresh (over-fresh i),
  load-idle (observe_all p.states now) i (observe_all-IsIdle p.states now v.idle),
  rw (length-observe_all p.states now),
)

-- The key that is first by the tie-breaker is first among the candidates.
same_head :
    (p : Pool) (now x : ℕ) (xs : List ℕ)
    → Idle p
    → (candidates p now).1 ≡ x ∷ xs
    → x ≡ first_after (length p.states) p.rr
same_head p now x xs v e = elim (ord_unique n p.rr x v.last_in_range v.few x_in_range) [
  | inr same ↦ same
  | inl later ↦ absurd (
      ground (
        arith,
        not_before (rank q f) (rank q x),
        rank-Idle p now f v,
        rank-Idle p now x v,
        head_best p now x xs f e,
        selectable-idle p.states now f v.idle (first_after-lt n p.rr v.last_in_range),
      ))
]
  where
    n : ℕ
    n = length p.states

    q : Pool
    q = (candidates p now).0

    f : ℕ
    f = first_after n p.rr

    x_in_range : x < n
    x_in_range =
        selectable-lt p.states now x (ground (arith, (candidates_lem p now).0 x, ap (count x) e))

head-Idle :
    (p : Pool) (now : ℕ) (cands : List ℕ)
    → Idle p
    → (candidates p now).1 ≡ cands
    → (rest : List ℕ) × (cands ≡ first_after (length p.states) p.rr ∷ rest)
head-Idle p now [] v e = absurd (
    ground (
      arith,
      (candidates_lem p now).0 p.rr,
      ap (count p.rr) e,
      selectable-idle p.states now p.rr v.idle v.last_in_range,
    ))
head-Idle p now (x ∷ xs) v e = (xs, ap (λ (c : ℕ). c ∷ xs) (same_head p now x xs v e))

set-IsIdle :
    (ss : List KeyState) (i : ℕ) (ks : KeyState)
    → All IsIdle ss
    → IsIdle ks
    → All IsIdle (set ss i ks)
set-IsIdle [] i ks h k = tt
set-IsIdle (s ∷ ss) zero ks h k = (k, h.1)
set-IsIdle (s ∷ ss) (suc i) ks h k = (h.0, set-IsIdle ss i ks h.1 k)

IsIdle-at :
    (ss : List KeyState) (i : ℕ) (ks : KeyState)
    → All IsIdle ss
    → get_elem? ss i ≡ some ks
    → IsIdle ks
IsIdle-at [] i ks h e = cc
IsIdle-at (s ∷ ss) zero ks h e = ground arith
IsIdle-at (s ∷ ss) (suc i) ks h e = IsIdle-at ss i ks h.1 e

abbrev settled : KeyState → KeyState
settled ks = on_health (confirm true) ks

settle-eq-some :
    (p q : Pool) (key : ℕ)
    → settle p key true ≡ some q
    → (ks : KeyState) × (get_elem? p.states key ≡ some ks)
      × (q ≡ record p { states = set p.states key (settled ks); rr = key })
unfolding settle modify
settle-eq-some p q key e = elim (Option-cases (get_elem? p.states key)) [
  | inl out ↦ absurd (ground arith)
  | inr (ks, found) ↦ (ks, found, ground arith)
]

settle-Idle :
    (p q : Pool) (key : ℕ)
    → Idle p
    → settle p key true ≡ some q
    → Idle q × (q.rr ≡ key) × (length q.states ≡ length p.states)
unfolding confirm
settle-Idle p q key v e =
    let (ks, found, made) = settle-eq-some p q key e in
    subst (λ r. Idle r × (r.rr ≡ key) × (length r.states ≡ length p.states)) (sym made)
      (
        record {
          idle =
              set-IsIdle p.states key (settled ks) v.idle
                (refl, (IsIdle-at p.states key ks v.idle found).1);
          fresh = v.fresh;
          last_in_range =
              omega (arith, get_elem?-lt p.states key found, length-set p.states key (settled ks));
          few = omega (arith, v.few, length-set p.states key (settled ks));
        },
        refl,
        length-set p.states key (settled ks),
      )

-- The tie-breaker does not go round: in an idle pool the first candidate depends on the key `last`
-- of the last success alone and is key 0 if that is 0, key `n - last` of `n` otherwise; and after a
-- success on it the first candidate is `last` again. So requests that come one after another use
-- at most two of the `n` keys, and on a new pool key 0 alone.
pub rotation_has_period_two :
    (p q : Pool) (now later : ℕ)
    → Idle p
    → settle p (first_after (length p.states) p.rr) true ≡ some q
    → (rest after : List ℕ) × ((candidates p now).1 ≡ first_after (length p.states) p.rr ∷ rest)
      × ((candidates q later).1 ≡ p.rr ∷ after)
      × Idle q
rotation_has_period_two p q now later v e =
    let (w, last, len) = settle-Idle p q _ v e in
    let (rest, first) = head-Idle p now _ v refl in
    let (after, second) = head-Idle q later _ w refl in
    let back : first_after (length q.states) q.rr ≡ p.rr =
      rw (len, last) (first_after_twice (length p.states) p.rr v.last_in_range) in
    (rest, after, first, second ∙ ap (λ (c : ℕ). c ∷ after) back, w)
