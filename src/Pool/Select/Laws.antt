-- ===== src/Pool/Select/Laws.antt =====
-- src/pool.rs: `candidates` holds exactly the selectable keys, best first.
use ollamux.Base.{
  ℕ, zero, suc, ◌≤◌, ◌<◌, ◌≡◌, refl, inl, inr, Bool, true, false, List, [], ◌∷◌, length, filter,
  count, range_from, count-range_from, ◌==◌, if◌then◌else◌, Bool-cases, arith, subst, sym, ap,
  ==_iff,
}
use ollamux.Base.Sort.{SortKey, before, count-sort_by_key, First, IsSorted, sort_by_key-IsSorted}
use ollamux.Pool.{KeyState, Pool, observe}
use ollamux.Pool.Select.{is_up, observe_all, up_at, over_bit, load_x1024, rank, candidates}

-- The key may be selected at this time: its state reads as up.
abbrev pub selectable : List KeyState → ℕ → ℕ → Bool
selectable [] now i = false
selectable (ks ∷ ss) now zero = is_up (observe ks.health now).state
selectable (ks ∷ ss) now (suc i) = selectable ss now i

pub length-observe_all : (ss : List KeyState) (now : ℕ) → length (observe_all ss now) ≡ length ss
unfolding observe_all
length-observe_all [] now = refl
length-observe_all (ks ∷ ss) now = omega (arith, length-observe_all ss now)

up_at-observe_all :
    (ss : List KeyState) (now i : ℕ) → up_at (observe_all ss now) i ≡ selectable ss now i
unfolding observe_all
up_at-observe_all [] now i = refl
up_at-observe_all (ks ∷ ss) now zero = refl
up_at-observe_all (ks ∷ ss) now (suc i) = up_at-observe_all ss now i

pub selectable-lt : (ss : List KeyState) (now i : ℕ) → selectable ss now i ≡ true → i < length ss
selectable-lt [] now i h = cc
selectable-lt (ks ∷ ss) now zero h = omega arith
selectable-lt (ks ∷ ss) now (suc i) h = omega (arith, selectable-lt ss now i h)

count-filter :
    (q : ℕ → Bool) (i : ℕ) (xs : List ℕ) → count i (filter q xs) ≡ (if q i then count i xs else 0)
count-filter q i [] = ground arith
count-filter q i (x ∷ xs) = ground (arith, count-filter q i xs)

pub First-count :
    (p : Pool) (x y : ℕ) (ys : List ℕ)
    → First (rank p) x ys
    → 1 ≤ count y ys
    → before (rank p y) (rank p x) ≡ false
First-count p x y [] f h = absurd (omega arith)
First-count p x y (z ∷ zs) f h = elim (Bool-cases (y == z)) [
  | inl e ↦ subst (λ w. before (rank p w) (rank p x) ≡ false) (sym ((==_iff y z).0 e)) f.0
  | inr e ↦ First-count p x y zs f.1 (ground arith)
]

pub candidates_lem :
    (p : Pool) (now : ℕ)
    → ((i : ℕ) → count i (candidates p now).1 ≡ (if selectable p.states now i then 1 else 0))
      × IsSorted (rank (candidates p now).0) (candidates p now).1
      × ((candidates p now).0.states ≡ observe_all p.states now)
unfolding candidates
candidates_lem p now = (
  λ i. ground (
    arith,
    count-sort_by_key (rank q) i (filter (up_at q.states) (range_from 0 (length q.states))),
    count-filter (up_at q.states) i (range_from 0 (length q.states)),
    up_at-observe_all p.states now i,
    selectable-lt p.states now i,
    length-observe_all p.states now,
    count-range_from i 0 (length q.states),
  ),
  sort_by_key-IsSorted (rank q) (
      filter (up_at (observe_all p.states now)) (range_from 0 (length (observe_all p.states now)))),
  refl,
)
  where
    q : Pool
    q = record p { states = observe_all p.states now }

before_irrefl : (k : SortKey) → before k k ≡ false
unfolding before
before_irrefl k = ground arith

pub head_best :
    (p : Pool) (now first : ℕ) (rest : List ℕ) (i : ℕ)
    → (candidates p now).1 ≡ first ∷ rest
    → selectable p.states now i ≡ true
    → before (rank (candidates p now).0 i) (rank (candidates p now).0 first) ≡ false
head_best p now first rest i e h = elim (Bool-cases (i == first)) [
  | inl same ↦ rw ((==_iff i first).0 same) (before_irrefl (rank (candidates p now).0 first))
  | inr other ↦
      First-count (candidates p now).0 first i rest
        (subst (IsSorted (rank (candidates p now).0)) e (candidates_lem p now).1).0
        (ground (arith, (candidates_lem p now).0 i, ap (count i) e))
]

before_parts :
    (k l : SortKey) → before l k ≡ false → (k.over ≤ l.over) × (k.over ≡ l.over → k.load ≤ l.load)
unfolding before
before_parts k l h = ground arith

-- The key that is tried first is over quota only if every selectable key is, and among the keys
-- that are equal to it in this its load is least.
pub head_over_then_load :
    (p : Pool) (now first : ℕ) (rest : List ℕ) (i : ℕ)
    → (candidates p now).1 ≡ first ∷ rest
    → selectable p.states now i ≡ true
    → let q = (candidates p now).0 in
      (over_bit p.over_quota_mask first ≤ over_bit p.over_quota_mask i)
      × (over_bit p.over_quota_mask first ≡ over_bit p.over_quota_mask i
          → load_x1024 q.states first ≤ load_x1024 q.states i)
unfolding rank candidates
head_over_then_load p now first rest i e h =
    before_parts (rank q first) (rank q i) (head_best p now first rest i e h)
  where
    q : Pool
    q = (candidates p now).0
