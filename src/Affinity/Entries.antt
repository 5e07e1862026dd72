-- ===== src/Affinity/Entries.antt =====
-- The `HashMap<u64, usize>` of src/affinity.rs: an association list in which a key stands once.
use ollamux.Base.{
  is_some, ℕ, suc, ◌-◌, ◌≤◌, ◌≡◌, refl, ◌≢◌, Bool, true, Option, none, some, List, [], ◌∷◌, ◌++◌,
  map, length, count, ◌==◌, if◌then◌else◌, arith,
}

abbrev pub Assoc : Type 0
Assoc = List (ℕ × ℕ)

unfoldable pub lookup : ℕ → Assoc → Option ℕ
lookup id [] = none
lookup id ((other, key) ∷ pins) = if other == id then some key else lookup id pins

unfoldable pub contains_key : ℕ → Assoc → Bool
contains_key id pins = is_some (lookup id pins)

unfoldable pub insert : ℕ → ℕ → Assoc → Assoc
insert id key [] = (id, key) ∷ []
insert id key ((other, pinned) ∷ pins) =
    if other == id then (id, key) ∷ pins else (other, pinned) ∷ insert id key pins

unfoldable pub remove : ℕ → Assoc → Assoc
remove id [] = []
remove id ((other, pinned) ∷ pins) = if other == id then pins else (other, pinned) ∷ remove id pins

abbrev pub keys : Assoc → List ℕ
keys = map (λ e. e.0)

-- No key stands twice.
abbrev pub IsMap : Assoc → Type 0
IsMap pins = (id : ℕ) → count id (keys pins) ≤ 1

pub lookup-insert :
    (id other key : ℕ) (pins : Assoc)
    → lookup other (insert id key pins) ≡ (if id == other then some key else lookup other pins)
unfolding lookup insert
lookup-insert id other key [] = refl
lookup-insert id other key ((i, pinned) ∷ pins) = ground (arith, lookup-insert id other key pins)

pub length-insert :
    (id key : ℕ) (pins : Assoc)
    → length (insert id key pins)
      ≡ (if contains_key id pins then length pins else suc (length pins))
unfolding lookup insert contains_key
length-insert id key [] = refl
length-insert id key ((i, pinned) ∷ pins) = ground (arith, length-insert id key pins)

pub count-lookup : (id : ℕ) (pins : Assoc) → lookup id pins ≡ none → count id (keys pins) ≡ 0
unfolding lookup
count-lookup id [] h = refl
count-lookup id ((i, pinned) ∷ pins) h = ground (arith, count-lookup id pins)

pub lookup-count : (id : ℕ) (pins : Assoc) → count id (keys pins) ≡ 0 → lookup id pins ≡ none
unfolding lookup
lookup-count id [] h = refl
lookup-count id ((i, pinned) ∷ pins) h = ground (arith, lookup-count id pins)

pub count-insert :
    (id other key : ℕ) (pins : Assoc)
    → count other (keys (insert id key pins)) ≡ (
        if contains_key id pins
        then count other (keys pins)
        else (if id == other then suc (count other (keys pins)) else count other (keys pins)))
unfolding lookup insert contains_key
count-insert id other key [] = ground arith
count-insert id other key ((i, pinned) ∷ pins) = ground (arith, count-insert id other key pins)

pub count-remove :
    (id other : ℕ) (pins : Assoc)
    → count other (keys (remove id pins))
      ≡ (if id == other then count other (keys pins) - 1 else count other (keys pins))
unfolding remove
count-remove id other [] = ground arith
count-remove id other ((i, pinned) ∷ pins) = ground (arith, count-remove id other pins)

pub lookup-remove_ne :
    (id other : ℕ) (pins : Assoc) → id ≢ other → lookup other (remove id pins) ≡ lookup other pins
unfolding lookup remove
lookup-remove_ne id other [] h = refl
lookup-remove_ne id other ((i, pinned) ∷ pins) h = ground (arith, lookup-remove_ne id other pins)

-- In a map a removed key is gone, and nothing else.
pub lookup-remove :
    (id other : ℕ) (pins : Assoc)
    → IsMap pins
    → lookup other (remove id pins) ≡ (if id == other then none else lookup other pins)
lookup-remove id other pins d = ground (
  arith,
  lookup-remove_ne id other pins,
  lookup-count other (remove id pins),
  count-remove id other pins,
  d other,
)

pub length-remove :
    (id : ℕ) (pins : Assoc)
    → length (remove id pins) ≡ (if contains_key id pins then length pins - 1 else length pins)
unfolding lookup remove contains_key
length-remove id [] = refl
length-remove id ((i, pinned) ∷ pins) = ground (arith, length-remove id pins, contains-pos id pins)
  where
    contains-pos : (id : ℕ) (pins : Assoc) → contains_key id pins ≡ true → 1 ≤ length pins
    contains-pos id [] h = cc
    contains-pos id (e ∷ pins) h = omega arith

pub insert-IsMap : (id key : ℕ) (pins : Assoc) → IsMap pins → IsMap (insert id key pins)
unfolding contains_key
insert-IsMap id key pins d other =
    ground (arith, count-insert id other key pins, d other, count-lookup id pins)

pub remove-IsMap : (id : ℕ) (pins : Assoc) → IsMap pins → IsMap (remove id pins)
remove-IsMap id pins d other = ground (arith, count-remove id other pins, d other)

-- An entry put at the end.
pub lookup-snoc :
    (id other key : ℕ) (pins : Assoc)
    → lookup id pins ≡ none
    → lookup other (pins ++ (id, key) ∷ []) ≡ (if id == other then some key else lookup other pins)
unfolding lookup
lookup-snoc id other key [] h = refl
lookup-snoc id other key ((i, pinned) ∷ pins) h = ground (arith, lookup-snoc id other key pins)

pub count-snoc :
    (id other key : ℕ) (pins : Assoc)
    → count other (keys (pins ++ (id, key) ∷ []))
      ≡ (if other == id then suc (count other (keys pins)) else count other (keys pins))
count-snoc id other key [] = refl
count-snoc id other key ((i, pinned) ∷ pins) = ground (arith, count-snoc id other key pins)
