-- ===== src/Pool/Admit.antt =====
-- src/pool.rs: `try_acquire`, the drop of a `Permit`, `acquire_on`, `admit`, `admit_affine` and
-- `pin_usable`. What a call does at once happens at one reading of the clock. A wait on the
-- condition variable gives way to the other threads: each round of the wait is a `Round`, the clock
-- before it and what the others make of the pool meanwhile; the rounds that the environment grants
-- are an argument, and `none` is a panic or the end of these rounds.
pub mod Slots
pub mod Admitted
pub mod Rejected
pub mod Recovery
pub mod Held
pub mod Conservation
pub mod Balance
pub mod Affine
pub mod Ready
pub mod Pinned
pub mod Returns
pub mod Progress
mod Tests
use ollamux.Base.{
  ℕ, ◌+◌, ◌-◌, ◌/◌, Bool, true, false, not, ◌&&◌, Option, none, some, ◌>>=◌, List, [], ◌∷◌, max,
  get_elem?, set, ltb, leb, ◌==◌, if◌then◌else◌, add_u32, String,
}
use ollamux.Pool.{KeyState, Pool, modify, observe_key, as_secs, pinned_key, pin}
use ollamux.Pool.Quota.{is_over_quota}
use ollamux.Pool.Select.{is_up, all_dead, candidates, next_retry_in}

pub record Reject : Type 0 where
  pub status : ℕ
  pub reason : String
  pub retry_after_s : Option ℕ

pub data WaitRejected : Type 0 where
  full timed_out : WaitRejected

pub data Waited : Type 0 where
  got : Waited
  refused : WaitRejected → Waited

pub data Admission : Type 0 where
  admitted : ℕ → Admission
  rejected : Reject → Admission

pub record Round : Type 0 where
  pub now : ℕ
  pub others : Pool → Pool

abbrev pub take_slot : KeyState → KeyState
take_slot ks = record ks { held = add_u32 ks.held 1 }

abbrev pub free_slot : KeyState → KeyState
free_slot ks = record ks { held = ks.held - 1 }

abbrev pub start_wait : KeyState → KeyState
start_wait ks = record ks { waiters = add_u32 ks.waiters 1 }

abbrev pub end_wait : KeyState → KeyState
end_wait ks = record ks { waiters = ks.waiters - 1 }

-- The pool, and whether a permit was given.
unfoldable pub try_acquire : Pool → ℕ → Option (Pool × Bool)
unfolding modify
try_acquire p key = get_elem? p.states key >>= λ ks.
    if ltb ks.held ks.concurrency
    then (modify p key take_slot >>= λ q. some (q, true))
    else some (p, false)

-- `Permit::drop`.
unfoldable pub release : Pool → ℕ → Option Pool
unfolding modify
release p key = modify p key free_slot

-- The admission to the wait of one key, and the end of the wait.
unfoldable pub enter_wait : Pool → ℕ → Option (Pool × Bool)
unfolding modify
enter_wait p key = get_elem? p.states key >>= λ ks.
    if leb ks.waiter_cap ks.waiters
    then some (p, false)
    else (modify p key start_wait >>= λ q. some (q, true))

unfoldable pub leave_wait : Pool → ℕ → Option Pool
unfolding modify
leave_wait p key = modify p key end_wait

-- The loop of `acquire_on`: a slot is tried first, then the deadline.
unfoldable pub wait_loop : ℕ → ℕ → List Round → Pool → Option (Pool × Waited)
unfolding try_acquire
wait_loop key deadline [] p =
    try_acquire p key >>= λ (q, free). if free then some (q, got) else none
wait_loop key deadline (r ∷ rs) p =
    let rest = wait_loop key deadline rs (r.others p) in
    try_acquire p key >>= λ (q, free).
    if free
    then some (q, got)
    else (if leb deadline r.now then some (p, refused timed_out) else rest)

unfoldable pub acquire_on : Pool → ℕ → ℕ → ℕ → List Round → Option (Pool × Waited)
unfolding enter_wait wait_loop leave_wait
acquire_on p key timeout now rounds = enter_wait p key >>= λ (q, entered).
    if entered
    then (wait_loop key (now + timeout) rounds q >>= λ (r, result).
        leave_wait r key >>= λ s. some (s, result))
    else some (p, refused full)

abbrev pub no_keys : Reject
no_keys = record {
  status = 503;
  reason =
      "ollamux has no API keys configured; set OLLAMUX_KEYS or create ~/.config/ollamux/keys (one key per line, https://ollama.com/settings/keys), then restart";
  retry_after_s = none;
}

abbrev pub keys_dead : Reject
keys_dead = record {
  status = 403;
  reason =
      "all ollamux API keys were rejected by https://ollama.com as invalid (401/403): check the keys at https://ollama.com/settings/keys and restart ollamux — dead keys stay dead until restart. Per-key state: GET /_keys";
  retry_after_s = none;
}

abbrev pub keys_cooling : ℕ → Reject
keys_cooling wait = record {
  status = 429;
  reason =
      "all ollamux keys are cooling down (rate-limited by https://ollama.com) and recover automatically; wait for the Retry-After header, then retry. Per-key state: GET /_keys";
  retry_after_s = some wait;
}

abbrev pub queue_full : Reject
queue_full = record {
  status = 429;
  reason =
      "ollamux is overloaded: every key is at its concurrency limit and the wait queue is full; raise per-key concurrency (KEY:N in the keys file) or add more keys. Retry shortly";
  retry_after_s = some 2;
}

abbrev pub queued_too_long : Reject
queued_too_long = record {
  status = 429;
  reason =
      "ollamux is overloaded: the request queued too long for a free key slot; raise per-key concurrency (KEY:N in the keys file) or reduce parallel requests. Retry via Retry-After";
  retry_after_s = some 1;
}

abbrev pub retry_secs : Option ℕ → ℕ
retry_secs none = 2
retry_secs (some d) = max (as_secs d) 1

-- The first candidate with a free slot.
unfoldable pub first_free : Pool → List ℕ → Option (Pool × Option ℕ)
unfolding try_acquire
first_free p [] = some (p, none)
first_free p (key ∷ keys) =
    let rest = first_free p keys in
    try_acquire p key >>= λ (q, free). if free then some (q, some key) else rest

abbrev pub outcome : ℕ → Waited → Admission
outcome key got = admitted key
outcome key (refused full) = rejected queue_full
outcome key (refused timed_out) = rejected queued_too_long

-- No candidate: the states are read once more.
unfoldable pub classify_empty : Pool → ℕ → Pool × Admission
classify_empty p now =
    let checked = all_dead p.states now in
    let q = record p { states = checked.0 } in
    if checked.1
    then (q, rejected keys_dead)
    else (q, rejected (keys_cooling (retry_secs (next_retry_in q.states now))))

-- Some candidate: a free slot, or the wait on the best.
unfoldable pub admit_among : Pool → List ℕ → ℕ → ℕ → List Round → Option (Pool × Admission)
unfolding first_free acquire_on classify_empty
admit_among p [] timeout now rounds = some (classify_empty p now)
admit_among p (best ∷ others) timeout now rounds = first_free p (best ∷ others) >>= λ (q, free).
    elim free [
      | some key ↦ some (q, admitted key)
      | none ↦ acquire_on q best timeout now rounds >>= λ (r, result). some (r, outcome best result)
    ]

abbrev pub no_states : List KeyState → Bool
no_states [] = true
no_states (ks ∷ rest) = false

unfoldable pub admit : Pool → ℕ → ℕ → List Round → Option (Pool × Admission)
unfolding admit_among candidates all_dead
admit p timeout now rounds =
    if no_states p.states
    then some (p, rejected no_keys)
    else (let checked = all_dead p.states now in
        let q = record p { states = checked.0 } in
        if checked.1
        then some (q, rejected keys_dead)
        else (let found = candidates q now in admit_among found.0 found.1 timeout now rounds))

-- The state of one key is read: the pool, and whether it is up.
unfoldable pub state_up : Pool → ℕ → ℕ → Option (Pool × Bool)
unfolding modify
state_up p key now = get_elem? p.states key >>= λ ks.
    modify p key (λ s. observe_key s now) >>= λ q. some (q, is_up (observe_key ks now).health.state)

-- A slot of the pinned key, if it can serve at once.
unfoldable pub try_pinned : Pool → ℕ → ℕ → ℕ → Option (Pool × Bool)
unfolding state_up try_acquire
try_pinned p id key now = state_up p key now >>= λ (q, is_selectable).
    if is_selectable && not (is_over_quota q key)
    then (try_acquire q key >>= λ (r, free).
        if free then some (pin r id key, true) else some (r, false))
    else some (q, false)

abbrev pub pin_admitted : ℕ → Pool × Admission → Pool × Admission
pin_admitted id (p, admitted key) = (pin p id key, admitted key)
pin_admitted id (p, rejected r) = (p, rejected r)

-- The fall-through to `admit`.
unfoldable pub admit_and_pin : Pool → ℕ → ℕ → ℕ → List Round → Option (Pool × Admission)
unfolding admit
admit_and_pin p id timeout now rounds = admit p timeout now rounds >>= λ r. some (pin_admitted id r)

unfoldable pub admit_affine : Pool → ℕ → Option ℕ → ℕ → List Round → Option (Pool × Admission)
unfolding admit_and_pin try_pinned pinned_key
admit_affine p timeout none now rounds = admit p timeout now rounds
admit_affine p timeout (some id) now rounds =
    let (q, pinned) = pinned_key p id in
    elim pinned [
      | none ↦ admit_and_pin q id timeout now rounds
      | some key ↦ try_pinned q id key now >>= λ (r, served).
          if served then some (r, admitted key) else admit_and_pin r id timeout now rounds
    ]

-- Whether the pin of `id` could serve at once; no slot is taken.
unfoldable pub pin_usable : Pool → ℕ → ℕ → Option (Pool × Bool)
unfolding state_up pinned_key
pin_usable p id now =
    let (q, pinned) = pinned_key p id in
    elim pinned [
      | none ↦ some (q, false)
      | some key ↦ do
        (r, is_selectable) ← state_up q key now
        ks ← get_elem? r.states key
        some (r, is_selectable && not (is_over_quota r key) && ltb ks.held ks.concurrency)
    ]
