-- ===== src/Affinity/Spec.antt =====
-- What the pin map of src/affinity.rs promises: one list of pins, the least recently used first.
use ollamux.Base.{ℕ, none, some, [], ◌∷◌, ◌++◌, length, leb, if◌then◌else◌}
use ollamux.Affinity.Entries.{Assoc, lookup, contains_key, remove}
use ollamux.Affinity.{points_to}

-- A pin becomes the most recently used one.
unfoldable pub promote : ℕ → ℕ → Assoc → Assoc
promote id key s = remove id s ++ (id, key) ∷ []

unfoldable pub spec_get : Assoc → ℕ → Assoc
unfolding promote
spec_get s id = elim (lookup id s) [ none ↦ s | some key ↦ promote id key s ]

unfoldable pub drop_oldest : Assoc → Assoc
drop_oldest [] = []
drop_oldest (e ∷ s) = s

-- A new pin in a full map takes the place of the least recently used one.
unfoldable pub spec_room : ℕ → Assoc → ℕ → Assoc
unfolding drop_oldest
spec_room cap s id =
    if contains_key id s then s else (if leb cap (length s) then drop_oldest s else s)

unfoldable pub spec_put : ℕ → Assoc → ℕ → ℕ → Assoc
unfolding promote spec_room
spec_put cap s id key = promote id key (spec_room cap s id)

unfoldable pub spec_remove_if : Assoc → ℕ → ℕ → Assoc
spec_remove_if s id key = if points_to (lookup id s) key then remove id s else s
