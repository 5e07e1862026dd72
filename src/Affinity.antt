-- ===== src/Affinity.antt =====
-- src/affinity.rs: the pin map `AffinityMap` (here `LruMap`), a bounded map from conversation
-- identities to key indices with LRU eviction. A `HashMap` is an association list that holds a key
-- once; the `VecDeque` is a list, its front first. The mutex is one step for each operation.
pub mod Entries
pub mod Spec
pub mod Represents
pub mod Refinement
pub mod Identity
pub mod Stability
mod Tests
use ollamux.Base.{
  ℕ, suc, ◌≡◌, Bool, true, false, not, ◌&&◌, Option, none, some, List, [], ◌∷◌, ◌++◌, length, max,
  ltb, leb, ◌==◌, if◌then◌else◌,
}
use Entries.{Assoc, lookup, contains_key, insert, remove}

pub record LruMap : Type 0 where
  pub entries : Assoc
  pub lru : List ℕ
  pub cap : ℕ

-- `if let Some(pos) = lru.iter().position(|&k| k == id) { lru.remove(pos); }`
unfoldable pub drop_first : ℕ → List ℕ → List ℕ
drop_first id [] = []
drop_first id (k ∷ ks) = if k == id then ks else k ∷ drop_first id ks

-- The move to the back of the deque.
unfoldable pub touch : ℕ → List ℕ → List ℕ
touch id lru = drop_first id lru ++ id ∷ []

unfoldable pub new : ℕ → LruMap
new cap = record { entries = []; lru = []; cap = max cap 1 }

unfoldable pub get : LruMap → ℕ → LruMap × Option ℕ
unfolding touch
get l id = elim (lookup id l.entries) [
  | none ↦ (l, none)
  | some key ↦ (record l { lru = touch id l.lru }, some key)
]

-- The eviction: the front of the deque goes, and a front that the map does not hold clears both.
unfoldable pub evict : LruMap → LruMap
evict l = elim l.lru [
  | [] ↦ l
  | old ∷ rest ↦
      if contains_key old l.entries
      then record l { entries = remove old l.entries; lru = rest }
      else record l { entries = []; lru = [] }
]

unfoldable pub make_room : LruMap → ℕ → LruMap
unfolding evict
make_room l id =
    if not (contains_key id l.entries) && leb l.cap (length l.entries) then evict l else l

unfoldable pub store : LruMap → ℕ → ℕ → LruMap
unfolding touch
store l id key =
    if contains_key id l.entries
    then record l { entries = insert id key l.entries; lru = touch id l.lru }
    else record l { entries = insert id key l.entries; lru = l.lru ++ id ∷ [] }

unfoldable pub put : LruMap → ℕ → ℕ → LruMap
unfolding make_room store
put l id key = store (make_room l id) id key

-- `l.map.get(&id) == Some(&key)`
unfoldable pub points_to : Option ℕ → ℕ → Bool
points_to none key = false
points_to (some k) key = k == key

unfoldable pub remove_if : LruMap → ℕ → ℕ → LruMap
unfolding points_to
remove_if l id key =
    if points_to (lookup id l.entries) key
    then record l { entries = remove id l.entries; lru = drop_first id l.lru }
    else l
