-- ===== src/Affinity/Identity.antt =====
-- src/affinity.rs: the FNV-1a hash and the conversation identity of a parsed request body.
-- `serde_json::Value` is `Value`; its serialisation, `serde_json::to_writer`, is a parameter. A
-- `Text` is read as the UTF-8 bytes of a string here, which is what the hash takes.
use ollamux.Base.{
  is_empty, ℕ, ◌*◌, ◌/◌, ◌%◌, ◌^◌, Bool, false, not, ◌||◌, Option, none, some, ◌>>=◌, List, [], ◌∷◌,
  bit_xor, min, length, take, drop, any, if◌then◌else◌, Text, codes, text_eq, starts_with, ◌-◌,
}

mutual
  pub data Value : Type 0 where
    null : Value
    bool : Bool → Value
    num : Text → Value
    str : Text → Value
    arr : Items → Value
    obj : Fields → Value

  pub data Items : Type 0 where
    nil : Items
    cons : Value → Items → Items

  pub data Fields : Type 0 where
    end : Fields
    field : Text → Value → Fields → Fields

abbrev find_field : Text → Fields → Option Value
find_field name end = none
find_field name (field k v fs) = if text_eq k name then some v else find_field name fs

-- `Value::get` with a name, `Value::as_str`, `Value::as_array`.
unfoldable pub get : Value → Text → Option Value
get (obj fs) name = find_field name fs
get _ name = none

abbrev pub as_str : Value → Option Text
as_str (str s) = some s
as_str _ = none

abbrev pub to_list : Items → List Value
to_list nil = []
to_list (cons v vs) = v ∷ to_list vs

abbrev pub as_array : Value → Option (List Value)
as_array (arr vs) = some (to_list vs)
as_array _ = none

abbrev pub ends_with : Text → Text → Bool
ends_with s suffix = text_eq (drop (length s - length suffix) s) suffix

abbrev pub max_prefix_bytes : ℕ
max_prefix_bytes = 64 * 1024

abbrev pub max_prompt_bytes : ℕ
max_prompt_bytes = 8 * 1024

abbrev affine_prefixes : List Text
affine_prefixes =
    codes "api/chat"
    ∷ codes "api/generate"
    ∷ codes "v1/chat/completions"
    ∷ codes "v1/completions"
    ∷ []

unfoldable pub is_affine_path : Text → Bool
is_affine_path sub_path = any (λ p. text_eq p sub_path) affine_prefixes

abbrev pub fnv_offset : ℕ
fnv_offset = 0xcbf29ce484222325

abbrev pub fnv_prime : ℕ
fnv_prime = 0x100000001b3

-- `wrapping_mul` by the prime.
unfoldable pub mix : ℕ → ℕ → ℕ
mix h b = bit_xor h b * fnv_prime % 2 ^ 64

unfoldable pub fold_bytes : ℕ → List ℕ → ℕ
unfolding mix
fold_bytes h [] = h
fold_bytes h (b ∷ bs) = fold_bytes (mix h b) bs

-- `h ^= h >> 32`
unfoldable pub avalanche : ℕ → ℕ
avalanche h = bit_xor h (h / 2 ^ 32)

unfoldable pub fnv1a64 : List ℕ → ℕ
unfolding fold_bytes avalanche
fnv1a64 bytes = avalanche (fold_bytes fnv_offset bytes)

-- Each part is preceded by its length (a length of 2 ^ 64 or more does not occur).
fold_parts : ℕ → List (List ℕ) → ℕ
unfolding fold_bytes mix
fold_parts h [] = h
fold_parts h (part ∷ parts) = fold_parts (fold_bytes (mix h (length part)) part) parts

unfoldable pub hash_parts : List (List ℕ) → ℕ
unfolding fold_parts avalanche
hash_parts parts = avalanche (fold_parts fnv_offset parts)

unfoldable pub is_system : Value → Bool
unfolding get
is_system m = elim (get m (codes "role") >>= as_str) [
  | none ↦ false
  | some role ↦ text_eq role (codes "system")
]

-- `msgs[..=cut]`: the leading system messages and the first other one; `none` if every message is
-- a system message.
unfoldable pub anchor : List Value → Option (List Value)
unfolding is_system
anchor [] = none
anchor (m ∷ ms) = if is_system m then (anchor ms >>= λ rest. some (m ∷ rest)) else some (m ∷ [])

unfoldable pub is_chat_path : Text → Bool
is_chat_path sub_path =
    ends_with sub_path (codes "chat") || ends_with sub_path (codes "chat/completions")

unfoldable pub family_of : Text → Text
unfolding starts_with
family_of sub_path = if starts_with sub_path (codes "v1/") then codes "v1" else codes "api"

module _ (to_writer : Value → Option (List ℕ)) where
  -- The loop over the messages of the prefix.
  unfoldable pub fold_messages : ℕ → List Value → Option ℕ
  unfolding fnv1a64
  fold_messages seed [] = some seed
  fold_messages seed (m ∷ ms) = to_writer m >>= λ buf.
      fold_messages
        (bit_xor seed (fnv1a64 (take (min (length buf) max_prefix_bytes) buf)) * fnv_prime % 2 ^ 64)
        ms

  unfoldable pub chat_identity : Text → Text → Value → Option ℕ
  unfolding hash_parts fold_messages anchor get
  chat_identity family model v = do
    msgs ← get v (codes "messages") >>= as_array
    prefix ← anchor msgs
    fold_messages (hash_parts (family ∷ model ∷ [])) prefix

  unfoldable pub prompt_identity : Text → Text → Value → Option ℕ
  unfolding hash_parts get
  prompt_identity family model v = do
    prompt ← get v (codes "prompt")
    buf ← to_writer prompt
    some (hash_parts (family ∷ model ∷ take (min (length buf) max_prompt_bytes) buf ∷ []))

  unfoldable pub model_identity : Text → Text → Value → Option ℕ
  unfolding chat_identity prompt_identity is_chat_path family_of
  model_identity sub_path model v =
      if is_empty model
      then none
      else (if is_chat_path sub_path
          then chat_identity (family_of sub_path) model v
          else prompt_identity (family_of sub_path) model v)

  unfoldable pub identity_from : Option Value → Text → Option ℕ
  unfolding model_identity is_affine_path get
  identity_from parsed sub_path = if not (is_affine_path sub_path) then none else (do
    v ← parsed
    model ← get v (codes "model") >>= as_str
    model_identity sub_path model v)
