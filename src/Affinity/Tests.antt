-- ===== src/Affinity/Tests.antt =====
-- src/affinity.rs: runs of the pin map and of the hash, and the theorems at concrete inputs.
use ollamux.Base.{
  ℕ, ◌/◌, ◌^◌, ◌≡◌, refl, Option, none, some, List, [], ◌∷◌, bit_xor, max, codes, text_eq, Text,
}
use ollamux.Affinity.{new, get, put, drop_first, touch, evict, make_room, store, remove_if}
use ollamux.Affinity.Entries.{lookup, contains_key, insert, remove}
use ollamux.Affinity.Identity.{
  Value, str, arr, obj, nil, cons, end, field, fnv1a64, hash_parts, identity_from, is_system,
  anchor, is_chat_path, is_affine_path,
}
use ollamux.Affinity.Identity
use ollamux.Affinity.Refinement.{Call, gets, puts, removes, run, spec_run, run-Represents}
use ollamux.Affinity.Represents.{Represents}
use ollamux.Affinity.Stability.{identity_from-append}

fnv-empty : fnv1a64 [] ≡ bit_xor 0xcbf29ce484222325 (0xcbf29ce484222325 / 2 ^ 32)
unfolding fnv1a64
fnv-empty = refl

fnv-a : fnv1a64 (97 ∷ []) ≡ bit_xor 0xaf63dc4c8601ec8c (0xaf63dc4c8601ec8c / 2 ^ 32)
unfolding fnv1a64
fnv-a = refl

-- A third pin in a map of two takes the place of the one that was not used since.
abbrev calls : List Call
calls = puts 1 10 ∷ puts 2 20 ∷ gets 1 ∷ puts 3 30 ∷ gets 2 ∷ removes 1 99 ∷ []

calls-lru : (run (new 2) calls).0.lru ≡ 1 ∷ 3 ∷ []
unfolding new get put store make_room evict touch drop_first remove_if lookup contains_key insert
    remove
calls-lru = refl

calls-answers : (run (new 2) calls).1 ≡ some 10 ∷ none ∷ []
unfolding new get put store make_room evict touch drop_first remove_if lookup contains_key insert
    remove
calls-answers = refl

run-Represents_example :
    Represents (run (new 2) calls).0 (spec_run (max 2 1) [] calls).0
    × ((run (new 2) calls).1 ≡ (spec_run (max 2 1) [] calls).1)
run-Represents_example = run-Represents 2 calls

abbrev message : Text → Text → Value
message role content =
    obj (field (codes "role") (str role) (field (codes "content") (str content) end))

abbrev first_turn : List Value
first_turn = message (codes "system") (codes "be brief") ∷ message (codes "user") (codes "hi") ∷ []

abbrev second_turn : List Value
second_turn =
    message (codes "assistant") (codes "hello") ∷ message (codes "user") (codes "more") ∷ []

abbrev to_items : List Value → Identity.Items
to_items [] = nil
to_items (v ∷ vs) = cons v (to_items vs)

abbrev body : List Value → Value
body msgs =
    obj
      (field (codes "model") (str (codes "m")) (field (codes "messages") (arr (to_items msgs)) end))

-- A serialisation for the test.
abbrev one_byte : Value → Option (List ℕ)
one_byte v = some (codes "x")

abbrev both_turns : List Value
both_turns =
    message (codes "system") (codes "be brief") ∷ message (codes "user") (codes "hi") ∷ second_turn

identity_from-append_example :
    identity_from one_byte (some (body both_turns)) (codes "api/chat")
    ≡ identity_from one_byte (some (body first_turn)) (codes "api/chat")
unfolding codes text_eq is_chat_path Identity.get anchor is_system
identity_from-append_example =
    identity_from-append one_byte (codes "api/chat") (body first_turn) (body both_turns) first_turn
      second_turn first_turn refl refl refl refl refl
