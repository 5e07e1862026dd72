-- ===== src/Usage/Tracker.antt =====
-- src/usage.rs: `UsageTracker`. The fetches of a round are an argument, the answer for each key
-- (`none` for a thread that yields nothing); so is the clock. The fetch guard is held by one thread
-- at a time, so a round is one step.
mod Rows
pub use Rows.{
  FetchError, status, network, rate_limited, drift, Fetched, fetched, failed, Clock, original_time,
  good_row, transient_status,
}
unfoldable pub use Rows.{
  failed_row, updated_unix, carried, carried_or_failed, eligible_at, status_reason,
  good_payload_row, normalise, error_row, row_of,
}
use ollamux.Base.{
  ℕ, zero, suc, ◌+◌, ◌-◌, Bool, true, false, ◌&&◌, ◌||◌, Option, none, some, ◌>>=◌, List, [], ◌∷◌,
  ◌++◌, map, length, get_elem?, set, ltb, leb, ◌==◌, if◌then◌else◌, Text, codes, decimal,
}
use ollamux.Snapshot.{Floats, KeyUsage, UsageSnapshot}
use ollamux.Pool.{Pool, as_secs, suffix_of}
use ollamux.Pool.Quota.{pct, publish_usage}
use ollamux.Usage.{
  UsagePayload, BalanceLimit, IncludedBalance, option_map, clamp_backoff, used_fraction, round3,
  usage_ttl, min_refresh_default, default_backoff_default,
}

pub record Tracker (F : Type 0) : Type 0 where
  pub pool : Pool
  pub ttl : ℕ
  pub snapshot : Option (UsageSnapshot F)
  pub last_attempt : Option ℕ
  pub min_refresh : ℕ
  pub backoff_until : List (Option ℕ)
  pub default_backoff : ℕ

module _ {F : Type 0} (fl : Floats F) where
  abbrev pub is_fresh : Option (Fetched F) → Bool
  is_fresh (some (fetched p)) = true
  is_fresh (some (failed e)) = false
  is_fresh none = false

  abbrev pub backoff_of : ℕ → Option (Fetched F) → Option ℕ
  backoff_of default (some (fetched p)) = none
  backoff_of default (some (failed e)) = elim (normalise e) [
    | rate_limited ra ↦ some (clamp_backoff ra default)
    | _ ↦ none
  ]
  backoff_of default none = none

  abbrev pub set_backoff : ℕ → ℕ → Option ℕ → List (Option ℕ) → List (Option ℕ)
  set_backoff i now none backoff = backoff
  set_backoff i now (some d) backoff = set backoff i (some (now + d))

  pub record RoundResult : Type 0 where
    pub rows : List (KeyUsage F)
    pub any_fresh : Bool
    pub backoff : List (Option ℕ)

  -- The answer of key `i`: an ineligible key is not fetched.
  abbrev pub answer : (ℕ → Option (Fetched F)) → List (Option ℕ) → Clock → ℕ → Option (Fetched F)
  answer fetch backoff c i = if eligible_at backoff c.started i then fetch i else none

  -- The loop over the `n` keys from index `i` on; `before` is the backoff when the round began.
  unfoldable pub round_rows :
      Tracker F → (ℕ → Option (Fetched F)) → Clock → ℕ → ℕ → List (Option ℕ) → Option RoundResult
  unfolding row_of eligible_at normalise clamp_backoff suffix_of
  round_rows t fetch c i zero backoff =
      some (record { rows = []; any_fresh = false; backoff = backoff })
  round_rows t fetch c i (suc n) backoff =
      let res = answer fetch t.backoff_until c i in
      round_rows t fetch c (suc i) n
        (set_backoff i c.ended (backoff_of t.default_backoff res) backoff)
      >>= λ rest. suffix_of t.pool i >>= λ suffix. some (record {
        rows =
            row_of fl t.snapshot c i suffix (eligible_at t.backoff_until c.started i) res
            ∷ rest.rows;
        any_fresh = is_fresh res || rest.any_fresh;
        backoff = rest.backoff;
      })

  abbrev pub publish : Tracker F → UsageSnapshot F → Tracker F
  publish t snap = record t { snapshot = some snap; pool = publish_usage fl t.pool snap }

  -- The end of a round: no fresh row leaves the previous snapshot.
  unfoldable pub conclude : Tracker F → Clock → RoundResult → Tracker F × UsageSnapshot F
  conclude t c r =
      let new : UsageSnapshot F = record { fetched_at = c.ended; keys = r.rows } in
      if r.any_fresh
      then (publish t new, new)
      else (elim t.snapshot [ some prev ↦ (t, prev) | none ↦ (publish t new, new) ])

  unfoldable pub do_fetch_inner :
      Tracker F → (ℕ → Option (Fetched F)) → Clock → Option (Tracker F × UsageSnapshot F)
  unfolding round_rows conclude
  do_fetch_inner t fetch c = round_rows t fetch c 0 (length t.pool.states) t.backoff_until >>= λ r.
      some (conclude (record t { last_attempt = some c.ended; backoff_until = r.backoff }) c r)

  unfoldable pub attempt_cooldown_left : Tracker F → ℕ → Option ℕ
  attempt_cooldown_left t now = t.last_attempt >>= λ last.
      if ltb (now - last) t.min_refresh then some (t.min_refresh - (now - last)) else none

  unfoldable pub fresh_snapshot : Tracker F → ℕ → Option (UsageSnapshot F)
  fresh_snapshot t now =
      t.snapshot >>= λ snap. if ltb (now - snap.fetched_at) t.ttl then some snap else none

  unfoldable pub wait_or_peek :
      Tracker F → (ℕ → Option (Fetched F)) → Clock → Option (Tracker F × UsageSnapshot F)
  unfolding do_fetch_inner
  wait_or_peek t fetch c = elim t.snapshot [
    | some snap ↦ some (t, snap)
    | none ↦ do_fetch_inner t fetch c
  ]

  unfoldable pub refresh :
      Tracker F → (ℕ → Option (Fetched F)) → Clock → Option (Tracker F × UsageSnapshot F)
  unfolding attempt_cooldown_left wait_or_peek do_fetch_inner
  refresh t fetch c = elim (attempt_cooldown_left t c.started) [
    | some left ↦ wait_or_peek t fetch c
    | none ↦ do_fetch_inner t fetch c
  ]

  -- `get`. With the guard taken by another thread, `others` is what that thread makes of the
  -- tracker by the time that it gives the guard back; it is waited for only if there is no snapshot.
  unfoldable pub get :
      Tracker F
      → Bool
      → (Tracker F → Tracker F)
      → (ℕ → Option (Fetched F))
      → Clock
      → Option (Tracker F × UsageSnapshot F)
  unfolding fresh_snapshot refresh wait_or_peek
  get t contended others fetch c = elim (fresh_snapshot t c.started) [
    | some snap ↦ some (t, snap)
    | none ↦
        if contended
        then (elim t.snapshot [
          | some snap ↦ some (t, snap)
          | none ↦ wait_or_peek (others t) fetch c
        ])
        else refresh t fetch c
  ]

  -- `tick`: the tracker, and whether a round was run.
  unfoldable pub tick :
      Tracker F → Bool → (ℕ → Option (Fetched F)) → Clock → Option (Tracker F × Bool)
  unfolding fresh_snapshot attempt_cooldown_left do_fetch_inner
  tick t contended fetch c = elim (fresh_snapshot t c.started) [
    | some snap ↦ some (t, false)
    | none ↦ if contended then some (t, false) else (elim (attempt_cooldown_left t c.started) [
      | some left ↦ some (t, false)
      | none ↦ do_fetch_inner t fetch c >>= λ r. some (r.0, true)
    ])
  ]

-- `UsageTracker::new`.
unfoldable pub new_tracker : {F : Type 0} → Pool → Tracker F
new_tracker pool = record {
  pool = pool;
  ttl = usage_ttl;
  snapshot = none;
  last_attempt = none;
  min_refresh = min_refresh_default;
  backoff_until = map (λ ks. none) pool.states;
  default_backoff = default_backoff_default;
}

-- The builders.
unfoldable pub with_ttl : {F : Type 0} → Tracker F → ℕ → Tracker F
with_ttl t ttl = record t { ttl = ttl }

unfoldable pub with_min_refresh : {F : Type 0} → Tracker F → ℕ → Tracker F
with_min_refresh t d = record t { min_refresh = d }

unfoldable pub with_default_backoff : {F : Type 0} → Tracker F → ℕ → Tracker F
with_default_backoff t d = record t { default_backoff = d }
