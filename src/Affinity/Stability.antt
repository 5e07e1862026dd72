-- ===== src/Affinity/Stability.antt =====
-- src/affinity.rs: the identity of a conversation does not change when messages are appended.
use ollamux.Base.{
  ℕ, ◌≡◌, inl, inr, true, Option, some, ◌>>=◌, List, [], ◌∷◌, ◌++◌, Bool-cases, Option-cases, arith,
  Text, codes,
}
use ollamux.Affinity.Identity.{
  Value, get, as_str, as_array, anchor, is_system, is_chat_path, chat_identity, family_of,
  model_identity, identity_from,
}

-- The prefix that is hashed ends with the first message that is not a system message.
pub anchor-append :
    (ms more : List Value) (prefix : List Value)
    → anchor ms ≡ some prefix
    → anchor (ms ++ more) ≡ some prefix
unfolding anchor
anchor-append [] more prefix h = cc
anchor-append (m ∷ ms) more prefix h = elim (Bool-cases (is_system m)) [
  | inr user ↦ ground arith
  | inl system ↦ elim (Option-cases (anchor ms)) [
    | inl e ↦ absurd (ground arith)
    | inr (rest, e) ↦ ground (arith, anchor-append ms more rest e)
  ]
]

chat_identity-append :
    (to_writer : Value → Option (List ℕ)) (family model : Text) (turn later : Value)
    (msgs more prefix : List Value)
    → (get turn (codes "messages") >>= as_array) ≡ some msgs
    → (get later (codes "messages") >>= as_array) ≡ some (msgs ++ more)
    → anchor msgs ≡ some prefix
    → chat_identity to_writer family model later ≡ chat_identity to_writer family model turn
unfolding chat_identity
chat_identity-append w family model turn later msgs more prefix m1 m2 a =
    rw (m2, m1, anchor-append msgs more prefix a, a)

-- Two bodies of a chat request with the same model, of which one has further messages behind
-- those of the other, have the same identity, if the shorter conversation has one at all: if some
-- message of it is not a system message. It is the same however messages are serialised.
pub identity_from-append :
    (to_writer : Value → Option (List ℕ)) (sub_path : Text) (turn later : Value)
    (msgs more prefix : List Value)
    → is_chat_path sub_path ≡ true
    → (get later (codes "model") >>= as_str) ≡ (get turn (codes "model") >>= as_str)
    → (get turn (codes "messages") >>= as_array) ≡ some msgs
    → (get later (codes "messages") >>= as_array) ≡ some (msgs ++ more)
    → anchor msgs ≡ some prefix
    → identity_from to_writer (some later) sub_path ≡ identity_from to_writer (some turn) sub_path
unfolding identity_from
identity_from-append w sub_path turn later msgs more prefix chat model m1 m2 a =
    rw (identity_from, model)
      (elim (Option-cases (get turn (codes "model") >>= as_str)) [
        | inl e ↦ rw e
        | inr (m, e) ↦ rw (e, model_identity, chat, same (family_of sub_path) m)
      ])
  where
    same : (family m : Text) → chat_identity w family m later ≡ chat_identity w family m turn
    same family m = chat_identity-append w family m turn later msgs more prefix m1 m2 a
