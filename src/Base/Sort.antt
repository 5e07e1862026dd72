-- ===== src/Base/Sort.antt =====
-- `slice::sort_by_key`: stable sorting by a key, here over keys that are triples of numbers in
-- lexicographic order.
use ollamux.Base.Tests.{◌==◌, ltb, if◌then◌else◌, Bool-cases}
use ollamux.Base.Lists.{count, All}
use Prim.Native.Nat.{ℕ}
use mathlib.Core.Path.{◌≡◌, refl}
use mathlib.Core.Logic.{inl, inr}
use mathlib.Core.Bool.{Bool, true, false}
use mathlib.Core.List.{List, [], ◌∷◌}
use native.Mathlib.Omega.{arith}

pub record SortKey : Type 0 where
  pub over : ℕ
  pub load : ℕ
  pub ord : ℕ

-- Strictly before.
unfoldable pub before : SortKey → SortKey → Bool
before a b =
    if ltb a.over b.over
    then true
    else (if a.over == b.over
        then (if ltb a.load b.load
            then true
            else (if a.load == b.load then ltb a.ord b.ord else false))
        else false)

module _ (key : ℕ → SortKey) where
  -- An equal element stays behind those that stood before it.
  unfoldable pub insert_by : ℕ → List ℕ → List ℕ
  insert_by x [] = x ∷ []
  insert_by x (y ∷ ys) = if before (key y) (key x) then y ∷ insert_by x ys else x ∷ y ∷ ys

  unfoldable pub sort_by_key : List ℕ → List ℕ
  unfolding insert_by
  sort_by_key [] = []
  sort_by_key (x ∷ xs) = insert_by x (sort_by_key xs)

  count-insert_by : (a x : ℕ) (ys : List ℕ) → count a (insert_by x ys) ≡ count a (x ∷ ys)
  unfolding insert_by
  count-insert_by a x [] = refl
  count-insert_by a x (y ∷ ys) = ground (arith, count-insert_by a x ys)

  pub count-sort_by_key : (a : ℕ) (xs : List ℕ) → count a (sort_by_key xs) ≡ count a xs
  unfolding sort_by_key
  count-sort_by_key a [] = refl
  count-sort_by_key a (x ∷ xs) =
      ground (arith, count-insert_by a x (sort_by_key xs), count-sort_by_key a xs)

  -- Nothing in the list comes strictly before `x`.
  abbrev pub First : ℕ → List ℕ → Type 0
  First x ys = All (λ y. before (key y) (key x) ≡ false) ys

  abbrev pub IsSorted : List ℕ → Type 0
  IsSorted [] = Unit {0}
  IsSorted (x ∷ xs) = First x xs × IsSorted xs

  before_asym : (a b : SortKey) → before a b ≡ true → before b a ≡ false
  unfolding before
  before_asym a b h = ground arith

  before_trans : (a b c : SortKey) → before b a ≡ false → before c b ≡ false → before c a ≡ false
  unfolding before
  before_trans a b c h k = ground arith

  First-insert_by :
      (z x : ℕ) (ys : List ℕ)
      → before (key x) (key z) ≡ false
      → First z ys
      → First z (insert_by x ys)
  unfolding insert_by
  First-insert_by z x [] h f = (h, tt)
  First-insert_by z x (y ∷ ys) h f = elim (Bool-cases (before (key y) (key x))) [
    | inl e ↦ rw e (f.0, First-insert_by z x ys h f.1)
    | inr e ↦ rw e (h, f)
  ]

  First-trans : (x y : ℕ) (ys : List ℕ) → before (key y) (key x) ≡ false → First y ys → First x ys
  First-trans x y [] h f = tt
  First-trans x y (z ∷ zs) h f =
      (before_trans (key x) (key y) (key z) h f.0, First-trans x y zs h f.1)

  insert_by-IsSorted : (x : ℕ) (ys : List ℕ) → IsSorted ys → IsSorted (insert_by x ys)
  unfolding insert_by
  insert_by-IsSorted x [] s = (tt, tt)
  insert_by-IsSorted x (y ∷ ys) s = elim (Bool-cases (before (key y) (key x))) [
    | inl e ↦
        rw e
          (First-insert_by y x ys (before_asym (key y) (key x) e) s.0, insert_by-IsSorted x ys s.1)
    | inr e ↦ rw e ((e, First-trans x y ys e s.0), s)
  ]

  pub sort_by_key-IsSorted : (xs : List ℕ) → IsSorted (sort_by_key xs)
  unfolding sort_by_key
  sort_by_key-IsSorted [] = tt
  sort_by_key-IsSorted (x ∷ xs) = insert_by-IsSorted x (sort_by_key xs) (sort_by_key-IsSorted xs)
