-- ===== src/Proxy.antt =====
-- src/proxy.rs: the request path. An `Upstream` is what `ureq` returns for one attempt, and a
-- `Delivery` what became of the answer on its way to the client: both are arguments. Texts are kept
-- where they steer the program and left out of error bodies.
pub mod Laws
pub mod Slots
pub mod Stream
pub mod Headers
pub mod Answers
pub mod Route
pub mod Balance
pub mod Answered
pub mod Failover
pub mod Rotation
pub mod Repeats
pub mod Poller
pub mod Returns
pub mod Tests
use ollamux.Base.{
  ℕ, suc, ◌+◌, ◌*◌, ◌≤◌, Bool, true, false, not, ◌&&◌, ◌||◌, Option, none, some, ◌>>=◌, List, [],
  ◌∷◌, ◌++◌, any, min, length, ltb, leb, ◌==◌, if◌then◌else◌, Text, codes, text_eq, starts_with,
  decimal,
}
use ollamux.Affinity.Identity.{Value, get, identity_from}
use ollamux.Pool.{Pool, secs, as_secs, cooldown_429, suffix_of, pin, unpin}
use ollamux.Pool.Marks.{mark_dead, mark_cooldown, mark_strike, settle}
use ollamux.Pool.Admit.{
  Round, Reject, Admission, admitted, rejected, admit, admit_affine, pin_usable, release,
}

abbrev pub max_body : ℕ
max_body = 16 * 1024 * 1024

abbrev pub max_attempts : ℕ
max_attempts = 3

abbrev pub wait_timeout : ℕ
wait_timeout = secs 30

abbrev pub retry_after_cap : ℕ
retry_after_cap = secs 300

pub data Verdict : Type 0 where
  hit miss off : Verdict

-- `affinity_header_value`.
unfoldable pub affinity_header_value : Bool → Bool → Option ℕ → Verdict
affinity_header_value pinned enabled none = off
affinity_header_value pinned false (some id) = off
affinity_header_value true true (some id) = hit
affinity_header_value false true (some id) = miss

unfoldable pub is_no_auth_path : Text → Bool
is_no_auth_path path =
    any (λ p. text_eq p path) (codes "api/tags" ∷ codes "api/version" ∷ codes "v1/models" ∷ [])

-- `Err(true)` of `read_body`: the body is over the cap.
pub data Body : Type 0 where
  whole : List ℕ → Body
  too_large : Body
  broken : Body

unfoldable pub read_body : Option (List ℕ) → Body
read_body none = broken
read_body (some bytes) = if ltb max_body (length bytes) then too_large else whole bytes

unfoldable pub wants_stream : Option Value → Bool → Bool
wants_stream none is_v1 = false
wants_stream (some v) is_v1 = elim (get v (codes "stream")) [
  | none ↦ not is_v1
  | some field ↦ elim field [ Value.bool b ↦ b | _ ↦ false ]
]

-- What the upstream answers to one attempt: a status below 400 (3xx included, redirects are off),
-- an error status with its `Retry-After` in seconds, if that parses, and the first bytes of its
-- body; or no answer.
pub data Upstream : Type 0 where
  success : ℕ → Upstream
  error_status : ℕ → Option ℕ → Text → Upstream
  no_answer : Text → Upstream

-- The relay of the answer: all of it, or a failure, which the program reports as some status.
pub data Delivery : Type 0 where
  delivered : Delivery
  cut : ℕ → Delivery

pub data Attempt : Type 0 where
  sent : ℕ → Attempt
  retryable : Text → Attempt

abbrev pub relay : ℕ → Delivery → Attempt
relay status delivered = sent status
relay status (cut reported) = sent reported

-- `snip.contains(..)`.
unfoldable pub contains_text : Text → Text → Bool
contains_text [] pattern = starts_with [] pattern
contains_text (c ∷ cs) pattern = starts_with (c ∷ cs) pattern || contains_text cs pattern

unfoldable pub is_unauthorized : ℕ → Text → Bool
is_unauthorized status snip =
    status == 401 || (status == 403 && contains_text snip (codes "Unauthorized"))

-- The cooldown of a 429: its `Retry-After`, capped, or a minute.
unfoldable pub cooldown_of : Option ℕ → ℕ
cooldown_of none = cooldown_429
cooldown_of (some s) = secs (min s (as_secs retry_after_cap))

-- `classify` for an attempt with a key: the key's health is marked, then the answer is relayed or
-- another key is tried.
unfoldable pub classify : Pool → ℕ → ℕ → Option ℕ → Text → Delivery → ℕ → Option (Pool × Attempt)
unfolding is_unauthorized cooldown_of
classify p key status retry_after snip out now =
    if is_unauthorized status snip
    then (mark_dead p key (codes "upstream says unauthorized") >>= λ q.
        some (q, retryable (codes "unauthorized: " ++ snip)))
    else (if status == 429
        then (mark_cooldown p key (cooldown_of retry_after) (codes "429: " ++ snip) now >>= λ q.
            some (q, retryable (codes "429: " ++ snip)))
        else (if leb 500 status && leb status 599
            then (mark_strike p key (codes "upstream " ++ (decimal status ++ (codes ": " ++ snip)))
                  now
                >>= λ q. some (q, retryable (codes "upstream " ++ decimal status)))
            else some (p, relay status out)))

unfoldable pub attempt : Pool → ℕ → Upstream → Delivery → ℕ → Option (Pool × Attempt)
unfolding classify
attempt p key (success status) out now = some (p, relay status out)
attempt p key (error_status status retry_after snip) out now =
    classify p key status retry_after snip out now
attempt p key (no_answer e) out now = some (p, retryable (codes "network: " ++ e))

-- An attempt of an endpoint that wants no key: no mark, no rotation.
unfoldable pub attempt_no_auth : Upstream → Delivery → Attempt
attempt_no_auth (success status) out = relay status out
attempt_no_auth (error_status status retry_after snip) out = relay status out
attempt_no_auth (no_answer e) out = retryable (codes "network: " ++ e)

-- What a request ends with: the status that the client sees, the retries, and the key that is
-- named in the answer, with its affinity verdict.
pub record Outcome : Type 0 where
  pub status : ℕ
  pub retries : ℕ
  pub key : Option ℕ
  pub affinity : Option Verdict

abbrev pub pin_some : Option ℕ → ℕ → Pool → Pool
pin_some none key p = p
pin_some (some id) key p = pin p id key

abbrev pub unpin_some : Option ℕ → ℕ → Pool → Pool
unpin_some none key p = p
unpin_some (some id) key p = unpin p id key

-- What the environment grants to one attempt: the answer, its out, the clock, what other
-- threads do while the attempt runs, and the rounds of a wait for the next key.
pub record Turn : Type 0 where
  pub upstream : Upstream
  pub delivery : Delivery
  pub now : ℕ
  pub others : Pool → Pool
  pub rounds : List Round

-- `Attempt::Sent`: the key is settled, and pinned on a 2xx. The permit drops at the return.
unfoldable pub finish : Pool → ℕ → Option ℕ → Bool → ℕ → ℕ → Option (Pool × Outcome)
finish p key identity pinned_before status retries = settle p key (ltb status 400) >>= λ q.
    (let r = if ltb status 300 then pin_some identity key q else q in
      release r key >>= λ s. some (
        s,
        record {
          status = status;
          retries = retries;
          key = some key;
          affinity = some (affinity_header_value pinned_before r.affinity_enabled identity);
        },
      ))

-- The rotation to another key: it is pinned, or the request ends with the rejection.
abbrev pub next_turn :
    (ℕ → Pool → Option (Pool × Outcome)) → Option ℕ → ℕ → Pool × Admission → Option (Pool × Outcome)
next_turn again identity retries (u, admitted k) = again k (pin_some identity k u)
next_turn again identity retries (u, rejected rej) =
    some (u, record { status = rej.status; retries = suc retries; key = none; affinity = none })

-- One pass of the loop of `proxy` on a permit of `key`; `again` is the next pass, on the next key.
unfoldable pub try_turn :
    (ℕ → Pool → Option (Pool × Outcome))
    → Option ℕ
    → Bool
    → ℕ
    → ℕ
    → Turn
    → Pool
    → Option (Pool × Outcome)
unfolding attempt finish
try_turn again identity pinned_before key retries t p =
    attempt (t.others p) key t.upstream t.delivery t.now >>= λ (q, result). elim result [
      | sent status ↦ finish q key identity pinned_before status retries
      | retryable reason ↦ release (unpin_some identity key q) key >>= λ s.
          if leb max_attempts (retries + 1)
          then some (s, record { status = 502; retries = retries; key = some key; affinity = none })
          else (admit s wait_timeout t.now t.rounds >>= next_turn again identity retries)
    ]

-- The loop of `proxy`, with the retries so far.
unfoldable pub attempts : Option ℕ → Bool → ℕ → ℕ → List Turn → Pool → Option (Pool × Outcome)
unfolding try_turn
attempts identity pinned_before key retries [] p = none
attempts identity pinned_before key retries (t ∷ ts) p =
    try_turn (λ k q. attempts identity pinned_before k (suc retries) ts q) identity pinned_before
      key retries t p

-- `proxy` with a key: admission, then the attempts.
unfoldable pub proxy_keyed :
    Pool → Option ℕ → Bool → ℕ → List Round → List Turn → Option (Pool × Outcome)
unfolding attempts
proxy_keyed p identity pinned_before now rounds turns =
    admit_affine p wait_timeout identity now rounds >>= λ (q, first). elim first [
      | admitted key ↦ attempts identity pinned_before key 0 turns q
      | rejected rej ↦
          some (q, record { status = rej.status; retries = 0; key = none; affinity = none })
    ]

abbrev pub plain : ℕ → Outcome
plain status = record { status = status; retries = 0; key = none; affinity = none }

-- The one attempt of an endpoint that wants no key.
unfoldable pub proxy_no_auth : Pool → List Turn → Option (Pool × Outcome)
unfolding attempt_no_auth
proxy_no_auth p [] = none
proxy_no_auth p (t ∷ ts) = elim (attempt_no_auth t.upstream t.delivery) [
  | sent status ↦ some (t.others p, plain status)
  | retryable reason ↦ some (t.others p, plain 502)
]

-- `pinned_before`: whether a pin could serve before the admission.
unfoldable pub read_pin : Pool → Option ℕ → ℕ → Option (Pool × Bool)
unfolding pin_usable
read_pin p none now = some (p, false)
read_pin p (some id) now = pin_usable p id now

-- `proxy`, from the body of the request on.
unfoldable pub proxy :
    (List ℕ → Option Value)
    → (Value → Option (List ℕ))
    → Pool
    → Body
    → Text
    → ℕ
    → List Round
    → List Turn
    → Option (Pool × Outcome)
unfolding proxy_keyed proxy_no_auth read_pin is_no_auth_path identity_from
proxy from_slice to_writer p broken sub_path now rounds turns = some (p, plain 400)
proxy from_slice to_writer p too_large sub_path now rounds turns = some (p, plain 413)
proxy from_slice to_writer p (whole bytes) sub_path now rounds turns =
    let identity = identity_from to_writer (from_slice bytes) sub_path in
    read_pin p identity now >>= λ (q, pinned_before).
    if is_no_auth_path sub_path
    then proxy_no_auth q turns
    else proxy_keyed q identity pinned_before now rounds turns
