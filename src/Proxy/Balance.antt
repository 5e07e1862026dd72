-- ===== src/Proxy/Balance.antt =====
-- src/proxy.rs: the slots over a whole request, from its admission to its last attempt.
use ollamux.Base.{
  none, refl, Text, get_elem?, ℕ, suc, ◌+◌, ◌≡◌, Bool, Option, some, ◌>>=◌, List, [], ◌∷◌, All, ltb,
  leb, if◌then◌else◌, Bool-cases, Option-cases, inl, inr, arith, subst,
}
use ollamux.Pool.{Pool, pinned_key}
use ollamux.Pool.Marks.{settle}
use ollamux.Pool.Admit.{
  pin_usable, state_up, Round, admitted, rejected, admit, admit_affine, release,
}
use ollamux.Pool.Admit.Held.{
  Fits, SameSlots, Takes, same_states, SameSlots-trans, Fits-SameSlots, Takes-SameSlots,
  SameSlots-Takes, release-SameSlots,
}
use ollamux.Pool.Admit.Conservation.{Steady}
use ollamux.Pool.Admit.Balance.{admit-AdmissionTakes}
use ollamux.Pool.Admit.Affine.{pinned_key-states, state_up-SameSlots, admit_affine-AdmissionTakes}
use ollamux.Affinity.Identity.{Value, identity_from}
use ollamux.Proxy.{
  Attempt, Body, broken, too_large, whole, attempt_no_auth, proxy_no_auth, read_pin,
  is_no_auth_path, proxy, sent, retryable, attempt, Outcome, pin_some, unpin_some, Turn, finish,
  next_turn, try_turn, attempts, proxy_keyed, wait_timeout, max_attempts,
}
use ollamux.Proxy.Slots.{
  SteadyTurn, settle-SameSlots, attempt-Keeps, pin_some-states, unpin_some-states,
}

-- A request that ends leaves the slots of `p`.
abbrev Restores : Pool → Option (Pool × Outcome) → Type 0
Restores p o = (q : Pool) (out : Outcome) → o ≡ some (q, out) → SameSlots p q

released-Restores :
    (p q r : Pool) (key : ℕ) (out : Outcome)
    → Takes p q key
    → release q key ≡ some r
    → Restores p (some (r, out))
released-Restores p q r key out takes e u out' made =
    subst (SameSlots p) {x = r} {y = u} (ground arith) (release-SameSlots p q r key takes e)

finish-Restores :
    (o p : Pool) (key : ℕ) (identity : Option ℕ) (pinned_before : Bool) (status retries : ℕ)
    → Takes o p key
    → Restores o (finish p key identity pinned_before status retries)
unfolding finish
finish-Restores o p key identity pinned_before status retries takes r out e =
    elim (Option-cases (settle p key (ltb status 400))) [
      | inl none_there ↦ absurd (ground arith)
      | inr (q, settled) ↦
          let q' = if ltb status 300 then pin_some identity key q else q in
          let same : q'.states ≡ q.states = ground (arith, pin_some-states identity key q) in
          let takes' =
            Takes-SameSlots o q q' key
              (Takes-SameSlots o p q key takes (settle-SameSlots p q key (ltb status 400) settled))
              (same_states q q' same) in
          elim (Option-cases (release q' key)) [
            | inl none_there ↦ absurd (ground arith)
            | inr (s, freed) ↦
                subst (SameSlots o) {x = s} {y = r} (ground arith)
                  (release-SameSlots o q' s key takes' freed)
          ]
    ]

-- The end of a retryable attempt: the next key, if there is one.
retry-Restores :
    (o s : Pool) (again : ℕ → Pool → Option (Pool × Outcome)) (identity : Option ℕ)
    (retries now : ℕ) (rounds : List Round)
    → Fits o
    → All Steady rounds
    → SameSlots o s
    → ((q : Pool) (k : ℕ) → Takes o q k → Restores o (again k q))
    → Restores o (admit s wait_timeout now rounds >>= next_turn again identity retries)
retry-Restores o s again identity retries now rounds fits steady same next q out e =
    elim (Option-cases (admit s wait_timeout now rounds)) [
      | inl none_there ↦ absurd (ground arith)
      | inr ((u, admitted k), ran) ↦
          let takes = SameSlots-Takes o s u k same (
            admit-AdmissionTakes s u wait_timeout now rounds (admitted k)
              (Fits-SameSlots o s fits same) steady ran) in
          let v = pin_some identity k u in
          next v k (Takes-SameSlots o u v k takes (same_states u v (pin_some-states identity k u)))
            q out (ground arith)
      | inr ((u, rejected rej), ran) ↦
          let kept = SameSlots-trans o s u same (
            admit-AdmissionTakes s u wait_timeout now rounds (rejected rej)
              (Fits-SameSlots o s fits same) steady ran) in
          subst (SameSlots o) {x = u} {y = q} (ground arith) kept
    ]

try_turn-Restores :
    (o p : Pool) (again : ℕ → Pool → Option (Pool × Outcome)) (identity : Option ℕ)
    (pinned_before : Bool) (key retries : ℕ) (t : Turn)
    → Fits o
    → SteadyTurn t
    → Takes o p key
    → ((q : Pool) (k : ℕ) → Takes o q k → Restores o (again k q))
    → Restores o (try_turn again identity pinned_before key retries t p)
unfolding try_turn
try_turn-Restores o p again identity pinned_before key retries t fits (steady, rounds) takes next r
      out e =
    let here = t.others p in
    let takes_here = Takes-SameSlots o p here key takes (steady p) in
    elim (Option-cases (attempt here key t.upstream t.delivery t.now)) [
      | inl none_there ↦ absurd (ground arith)
      | inr ((q, sent status), ran) ↦
          finish-Restores o q key identity pinned_before status retries
            (Takes-SameSlots o here q key takes_here
              (attempt-Keeps here key t.upstream t.delivery t.now q (sent status) ran))
            r out (ground arith)
      | inr ((q, retryable reason), ran) ↦
          let q' = unpin_some identity key q in
          let takes' =
            Takes-SameSlots o q q' key
              (Takes-SameSlots o here q key takes_here
                (attempt-Keeps here key t.upstream t.delivery t.now q (retryable reason) ran))
              (same_states q q' (unpin_some-states identity key q)) in
          elim (Option-cases (release q' key)) [
            | inl none_there ↦ absurd (ground arith)
            | inr (s, freed) ↦
                let same = release-SameSlots o q' s key takes' freed in
                elim (Bool-cases (leb max_attempts (retries + 1))) [
                  | inl last ↦ subst (SameSlots o) {x = s} {y = r} (ground arith) same
                  | inr more ↦
                      retry-Restores o s again identity retries t.now t.rounds fits rounds same next
                        r out (ground arith)
                ]
          ]
    ]

attempts-Restores :
    (o : Pool) (identity : Option ℕ) (pinned_before : Bool) (retries : ℕ) (turns : List Turn)
    (p : Pool) (key : ℕ)
    → Fits o
    → All SteadyTurn turns
    → Takes o p key
    → Restores o (attempts identity pinned_before key retries turns p)
unfolding attempts
attempts-Restores o identity pinned_before retries [] p key fits steady takes q out e =
    absurd (ground arith)
attempts-Restores o identity pinned_before retries (t ∷ ts) p key fits steady takes q out e =
    try_turn-Restores o p (λ k q. attempts identity pinned_before k (suc retries) ts q) identity
      pinned_before key retries t fits steady.0 takes
      (λ q k taken.
        attempts-Restores o identity pinned_before (suc retries) ts q k fits steady.1 taken)
      q out e

pub proxy_keyed-Restores :
    (p q : Pool) (identity : Option ℕ) (pinned_before : Bool) (now : ℕ) (rounds : List Round)
    (turns : List Turn) (out : Outcome)
    → Fits p
    → All Steady rounds
    → All SteadyTurn turns
    → proxy_keyed p identity pinned_before now rounds turns ≡ some (q, out)
    → SameSlots p q
unfolding proxy_keyed
proxy_keyed-Restores p q identity pinned_before now rounds turns out fits steady steady_turns e =
    elim (Option-cases (admit_affine p wait_timeout identity now rounds)) [
      | inl none_there ↦ absurd (ground arith)
      | inr ((r, admitted key), ran) ↦
          attempts-Restores p identity pinned_before 0 turns r key fits steady_turns
            (admit_affine-AdmissionTakes p r wait_timeout identity now rounds (admitted key) fits
              steady ran)
            q out (ground arith)
      | inr ((r, rejected rej), ran) ↦ subst (SameSlots p) {x = r} {y = q} (ground arith) (
          admit_affine-AdmissionTakes p r wait_timeout identity now rounds (rejected rej) fits
            steady ran)
    ]

pin_usable-SameSlots :
    (p q : Pool) (id now : ℕ) (usable : Bool)
    → pin_usable p id now ≡ some (q, usable)
    → SameSlots p q
unfolding pin_usable
pin_usable-SameSlots p q id now usable e =
    let seen = (pinned_key p id).0 in
    let same = same_states p seen (pinned_key-states p id) in
    elim (Option-cases (pinned_key p id).1) [
      | inl unpinned ↦ subst (SameSlots p) {x = seen} {y = q} (ground arith) same
      | inr (key, pinned) ↦ elim (Option-cases (state_up seen key now)) [
        | inl out ↦ absurd (ground arith)
        | inr ((r, is_selectable), read) ↦ elim (Option-cases (get_elem? r.states key)) [
          | inl out ↦ absurd (ground arith)
          | inr (ks, found) ↦
              subst (SameSlots p) {x = r} {y = q} (ground arith) (
                SameSlots-trans p seen r same
                  (state_up-SameSlots seen r key now is_selectable read))
        ]
      ]
    ]

pub read_pin-SameSlots :
    (p q : Pool) (identity : Option ℕ) (now : ℕ) (usable : Bool)
    → read_pin p identity now ≡ some (q, usable)
    → SameSlots p q
unfolding read_pin
read_pin-SameSlots p q none now usable e = same_states p q (ground arith)
read_pin-SameSlots p q (some id) now usable e = pin_usable-SameSlots p q id now usable e

proxy_no_auth-SameSlots :
    (p q : Pool) (turns : List Turn) (out : Outcome)
    → All SteadyTurn turns
    → proxy_no_auth p turns ≡ some (q, out)
    → SameSlots p q
unfolding proxy_no_auth
proxy_no_auth-SameSlots p q [] out steady e = absurd (ground arith)
proxy_no_auth-SameSlots p q (t ∷ ts) out steady e = go (attempt_no_auth t.upstream t.delivery) refl
  where
    go : (a : Attempt) → attempt_no_auth t.upstream t.delivery ≡ a → SameSlots p q
    go (sent status) is_sent =
        subst (SameSlots p) {x = t.others p} {y = q} (ground arith) (steady.0.0 p)
    go (retryable reason) failed =
        subst (SameSlots p) {x = t.others p} {y = q} (ground arith) (steady.0.0 p)

-- A request gives back every slot that it takes: however it ends, with an unread body, an answer, a
-- rejection or after failed attempts on several keys, each key then holds as many slots as before
-- it. The other threads are taken to leave the slots as they are meanwhile, and a key to have fewer
-- than 2^32.
pub proxy-SameSlots :
    (from_slice : List ℕ → Option Value) (to_writer : Value → Option (List ℕ)) (p q : Pool)
    (body : Body) (sub_path : Text) (now : ℕ) (rounds : List Round) (turns : List Turn)
    (out : Outcome)
    → Fits p
    → All Steady rounds
    → All SteadyTurn turns
    → proxy from_slice to_writer p body sub_path now rounds turns ≡ some (q, out)
    → SameSlots p q
unfolding proxy
proxy-SameSlots from_slice to_writer p q broken sub_path now rounds turns out fits steady
      steady_turns e =
    same_states p q (ground arith)
proxy-SameSlots from_slice to_writer p q too_large sub_path now rounds turns out fits steady
      steady_turns e =
    same_states p q (ground arith)
proxy-SameSlots from_slice to_writer p q (whole bytes) sub_path now rounds turns out fits steady
      steady_turns e =
    let identity = identity_from to_writer (from_slice bytes) sub_path in
    elim (Option-cases (read_pin p identity now)) [
      | inl none_there ↦ absurd (ground arith)
      | inr ((r, pinned_before), read) ↦
          let same = read_pin-SameSlots p r identity now pinned_before read in
          SameSlots-trans p r q same (elim (Bool-cases (is_no_auth_path sub_path)) [
            | inl no_auth ↦ proxy_no_auth-SameSlots r q turns out steady_turns (ground arith)
            | inr keyed ↦
                proxy_keyed-Restores r q identity pinned_before now rounds turns out
                  (Fits-SameSlots p r fits same) steady steady_turns (ground arith)
          ])
    ]
