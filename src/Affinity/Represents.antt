-- ===== src/Affinity/Represents.antt =====
-- src/affinity.rs: when the map and its deque hold a list of pins, and that `get`, `put` and
-- `remove_if` keep to it.
use ollamux.Base.{
  ℕ, suc, ◌≤◌, ◌≡◌, refl, sym, ◌∙◌, ◌⊎◌, inl, inr, true, false, none, some, List, [], ◌∷◌, ◌++◌,
  length, length-append, ◌==◌, if◌then◌else◌, Bool-cases, Option-cases, arith,
}
use mathlib.Core.List.{map-append}
use ollamux.Affinity.Entries.{
  Assoc, IsMap, lookup, contains_key, insert, remove, keys, lookup-insert, length-insert,
  lookup-remove, length-remove, insert-IsMap, remove-IsMap, lookup-snoc, count-snoc, lookup-count,
  count-remove,
}
use ollamux.Affinity.Spec.{promote, spec_get, spec_room, spec_put, spec_remove_if}
use ollamux.Affinity.{
  LruMap, drop_first, touch, new, get, evict, make_room, store, put, points_to, remove_if,
}

-- The map and its deque hold the pins `s`, and no more than the capacity of them.
pub record Represents (l : LruMap) (s : Assoc) : Type 0 where
  pub order : l.lru ≡ keys s
  pub entries : (id : ℕ) → lookup id l.entries ≡ lookup id s
  pub size : length l.entries ≡ length s
  pub entries_map : IsMap l.entries
  pub pins_map : IsMap s
  pub bounded : length s ≤ l.cap
  pub positive : 1 ≤ l.cap

drop_first-keys : (id : ℕ) (s : Assoc) → drop_first id (keys s) ≡ keys (remove id s)
unfolding drop_first remove
drop_first-keys id [] = refl
drop_first-keys id ((k, v) ∷ s) = ground (arith, drop_first-keys id s)

keys-snoc : (s : Assoc) (id key : ℕ) → keys (s ++ (id, key) ∷ []) ≡ keys s ++ id ∷ []
keys-snoc s id key = map-append _ s ((id, key) ∷ [])

touch-keys : (id key : ℕ) (s : Assoc) → touch id (keys s) ≡ keys (promote id key s)
unfolding touch promote
touch-keys id key s = rw (drop_first-keys id s, keys-snoc (remove id s) id key)

lookup-remove_self : (id : ℕ) (s : Assoc) → IsMap s → lookup id (remove id s) ≡ none
lookup-remove_self id s d = ground (arith, lookup-remove id id s d)

pub lookup-promote :
    (id key j : ℕ) (s : Assoc)
    → IsMap s
    → lookup j (promote id key s) ≡ (if id == j then some key else lookup j s)
unfolding promote
lookup-promote id key j s d =
    ground (
      arith,
      lookup-snoc id j key (remove id s) (lookup-remove_self id s d),
      lookup-remove id j s d,
    )

promote-IsMap : (id key : ℕ) (s : Assoc) → IsMap s → IsMap (promote id key s)
unfolding promote
promote-IsMap id key s d j =
    ground (arith, count-snoc id j key (remove id s), count-remove id j s, d j)

pos_of_contains : (id : ℕ) (s : Assoc) → contains_key id s ≡ true → 1 ≤ length s
unfolding contains_key lookup
pos_of_contains id [] h = cc
pos_of_contains id (e ∷ s) h = omega arith

length-promote :
    (id key : ℕ) (s : Assoc)
    → length (promote id key s) ≡ (if contains_key id s then length s else suc (length s))
unfolding promote
length-promote id key s =
    ground (
      arith,
      length-append (remove id s) ((id, key) ∷ []),
      length-remove id s,
      pos_of_contains id s,
    )

remove_absent : (id : ℕ) (s : Assoc) → lookup id s ≡ none → remove id s ≡ s
unfolding lookup remove
remove_absent id [] h = refl
remove_absent id ((k, v) ∷ s) h = ground (arith, remove_absent id s)

keys-promote_absent :
    (id key : ℕ) (s : Assoc)
    → contains_key id s ≡ false
    → keys (promote id key s) ≡ keys s ++ id ∷ []
unfolding promote contains_key
keys-promote_absent id key s h = rw (remove_absent id s (ground arith)) (keys-snoc s id key)

module _ {l : LruMap} {s : Assoc} (r : Represents l s) where
  pub contains-Represents : (id : ℕ) → contains_key id l.entries ≡ contains_key id s
  unfolding contains_key
  contains-Represents id = rw (r.entries id)

  -- What `get` answers is the pin, and the pin becomes the most recently used one.
  pub get-Represents :
      (id : ℕ) → ((get l id).1 ≡ lookup id s) × Represents (get l id).0 (spec_get s id)
  unfolding get spec_get contains_key
  get-Represents id = elim (Option-cases (lookup id s)) [
    | inl e ↦ rw (get, r.entries id, e, spec_get) (refl, r)
    | inr (key, e) ↦
        rw (get, r.entries id, e, spec_get)
          (
            refl,
            record {
              order = rw r.order (touch-keys id key s);
              entries = λ j. ground (arith, r.entries j, lookup-promote id key j s r.pins_map);
              size = rw (length-promote id key s, contains_key, e) r.size;
              entries_map = r.entries_map;
              pins_map = promote-IsMap id key s r.pins_map;
              bounded = rw (length-promote id key s, contains_key, e) r.bounded;
              positive = r.positive;
            },
          )
  ]

evict-eq :
    (l : LruMap) (old : ℕ) (rest : List ℕ)
    → l.lru ≡ old ∷ rest
    → contains_key old l.entries ≡ true
    → evict l ≡ record l { entries = remove old l.entries; lru = rest }
unfolding evict
evict-eq l old rest e c = ground arith

-- The defensive branch of the eviction is not taken: the front of the deque is in the map.
evict-Represents :
    {l : LruMap} {e : ℕ × ℕ} {s : Assoc} → Represents l (e ∷ s) → Represents (evict l) s
unfolding contains_key lookup
evict-Represents {l} {e} {s} r = rw (evict-eq l e.0 (keys s) r.order held) (record {
  order = refl;
  entries = λ id. ground (
    arith,
    lookup-remove e.0 id l.entries r.entries_map,
    r.entries id,
    lookup-count id s,
    r.pins_map id,
  );
  size = ground (arith, length-remove e.0 l.entries, held, r.size);
  entries_map = remove-IsMap e.0 l.entries r.entries_map;
  pins_map = λ id. ground (arith, r.pins_map id);
  bounded = omega (arith, r.bounded);
  positive = r.positive;
})
  where
    held : contains_key e.0 l.entries ≡ true
    held = ground (arith, r.entries e.0)

-- After the eviction the map has room for a new identity.
abbrev HasRoom : LruMap → ℕ → Assoc → Type 0
HasRoom l id s = (contains_key id s ≡ true) ⊎ (suc (length s) ≤ l.cap)

pub cap-evict : (l : LruMap) → (evict l).cap ≡ l.cap
unfolding evict
cap-evict l = ground arith

make_room-Represents :
    {l : LruMap} (s : Assoc) (id : ℕ)
    → Represents l s
    → Represents (make_room l id) (spec_room l.cap s id)
      × HasRoom (make_room l id) id (spec_room l.cap s id)
unfolding make_room spec_room
make_room-Represents {l} [] id r = ground (arith, r.size, r.positive, contains-Represents r id)
make_room-Represents {l} (e ∷ s) id r =
    ground (arith, evict-Represents r, r, r.size, r.bounded, cap-evict l, contains-Represents r id)

store-Represents :
    {l : LruMap} {s : Assoc} (id key : ℕ)
    → Represents l s
    → HasRoom l id s
    → Represents (store l id key) (promote id key s)
unfolding store
store-Represents {l} {s} id key r room = elim (Bool-cases (contains_key id l.entries)) [
  | inl held ↦ rw held (record {
    order = rw r.order (touch-keys id key s);
    entries = after_insert;
    size = ground (arith, after_size, same, r.size, length-promote id key s);
    entries_map = insert-IsMap id key l.entries r.entries_map;
    pins_map = promote-IsMap id key s r.pins_map;
    bounded = ground (arith, same, r.bounded, length-promote id key s);
    positive = r.positive;
  })
  | inr fresh ↦ rw fresh (record {
    order = rw (r.order, keys-promote_absent id key s (sym same ∙ fresh));
    entries = after_insert;
    size = ground (arith, after_size, same, r.size, length-promote id key s);
    entries_map = insert-IsMap id key l.entries r.entries_map;
    pins_map = promote-IsMap id key s r.pins_map;
    bounded = ground (arith, same, room, length-promote id key s);
    positive = r.positive;
  })
]
  where
    same : contains_key id l.entries ≡ contains_key id s
    same = contains-Represents r id

    after_size :
        length (insert id key l.entries)
        ≡ (if contains_key id l.entries then length l.entries else suc (length l.entries))
    after_size = length-insert id key l.entries

    after_insert : (j : ℕ) → lookup j (insert id key l.entries) ≡ lookup j (promote id key s)
    after_insert j =
        ground (
          arith,
          lookup-insert id j key l.entries,
          r.entries j,
          lookup-promote id key j s r.pins_map,
        )

-- What `remove_if` drops is exactly a pin to that key.
pub remove_if-Represents :
    {l : LruMap} {s : Assoc} (id key : ℕ)
    → Represents l s
    → Represents (remove_if l id key) (spec_remove_if s id key)
unfolding remove_if spec_remove_if
remove_if-Represents {l} {s} id key r = elim (Bool-cases (points_to (lookup id s) key)) [
  | inl hit ↦
      rw (r.entries id, hit)
        (record {
          order = rw r.order (drop_first-keys id s);
          entries = λ j. ground (
            arith,
            lookup-remove id j l.entries r.entries_map,
            lookup-remove id j s r.pins_map,
            r.entries j,
          );
          size = ground (
            arith,
            length-remove id l.entries,
            length-remove id s,
            contains-Represents r id,
            r.size,
          );
          entries_map = remove-IsMap id l.entries r.entries_map;
          pins_map = remove-IsMap id s r.pins_map;
          bounded = ground (arith, length-remove id s, r.bounded);
          positive = r.positive;
        })
  | inr miss ↦ rw (r.entries id, miss) r
]

pub new-Represents : (cap : ℕ) → Represents (new cap) []
unfolding new lookup
new-Represents cap = record {
  order = refl;
  entries = λ id. refl;
  size = refl;
  entries_map = λ id. omega arith;
  pins_map = λ id. omega arith;
  bounded = omega arith;
  positive = omega arith;
}

-- `put` does what the list of pins does: the pin is the newest, and only a new pin in a full map
-- drops one, the least recently used. The capacity is never exceeded.
pub put-Represents :
    {l : LruMap} {s : Assoc} (id key : ℕ)
    → Represents l s
    → Represents (put l id key) (spec_put l.cap s id key)
unfolding put spec_put
put-Represents {l} {s} id key r =
    let (made, room) = make_room-Represents s id r in store-Represents id key made room
