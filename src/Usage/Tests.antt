-- ===== src/Usage/Tests.antt =====
-- src/usage.rs: rounds at concrete inputs, and the theorems on them.
use ollamux.Base.{
  ◌⊎◌, Bool, true, ℕ, ◌≡◌, refl, false, Option, none, some, [], ◌∷◌, codes, arith, Bool-cases, inl,
  inr,
}
use ollamux.Snapshot.{KeyUsage, UsageSnapshot}
use ollamux.Usage.Aggregate.{aggregate}
use ollamux.Usage.Resets.{Reports, resets, aggregate-Reports}
use ollamux.Usage.Carry.{fetch_time, reason_of, IsErrorRow, row_of-Carries}
use ollamux.Samples.{used_up, three_keys, one_state, whole_floats, usage_of_second}
use ollamux.Pool.{Pool, secs}
use ollamux.Usage.Tracker.{
  status, row_of, good_row, rate_limited, Fetched, failed, Clock, Tracker, eligible_at,
  do_fetch_inner, refresh, tick,
}
use ollamux.Usage.Laws.{NoneFresh, no_round_within_min_refresh, stale_round}

-- One key, with a snapshot of an earlier round.
abbrev one_key : Pool
one_key = record three_keys { keys = codes "key-aaaa" ∷ []; states = one_state ∷ [] }

abbrev tracker : Tracker ℕ
tracker = record {
  pool = one_key;
  ttl = secs 60;
  snapshot = some usage_of_second;
  last_attempt = none;
  min_refresh = secs 5;
  backoff_until = none ∷ [];
  default_backoff = secs 60;
}

abbrev clock : Clock
clock = record { started = secs 100; ended = secs 101; unix = 1_000_000 }

abbrev soon : Clock
soon = record { started = secs 103; ended = secs 104; unix = 1_000_003 }

-- The upstream asks for ten minutes.
abbrev limited : ℕ → Option (Fetched ℕ)
limited i = some (failed (rate_limited (some (secs 600))))

abbrev after_limited : Tracker ℕ
after_limited = record tracker {
  last_attempt = some (secs 101);
  backoff_until = some (secs 401) ∷ [];
}

after_limited-run :
    do_fetch_inner whole_floats tracker limited clock ≡ some (after_limited, usage_of_second)
unfolding do_fetch_inner
after_limited-run = refl

no_round_within_min_refresh_example :
    (refresh whole_floats after_limited limited soon ≡ some (after_limited, usage_of_second))
    × (tick whole_floats after_limited false limited soon ≡ some (after_limited, false))
no_round_within_min_refresh_example =
    no_round_within_min_refresh whole_floats tracker after_limited usage_of_second limited limited
      clock soon false after_limited-run (ground arith)

limited-stale : NoneFresh whole_floats limited (none ∷ []) clock
limited-stale i = elim (Bool-cases (eligible_at (none ∷ []) clock.started i)) [
  | inl e ↦ rw e refl
  | inr e ↦ rw e refl
]

stale_round_example :
    (usage_of_second ≡ usage_of_second)
    × (after_limited.pool ≡ tracker.pool)
    × (after_limited.snapshot ≡ tracker.snapshot)
    × (after_limited.last_attempt ≡ some (secs 101))
stale_round_example =
    stale_round whole_floats tracker after_limited usage_of_second usage_of_second limited clock
      after_limited-run refl limited-stale

-- Two good rows with the same reset.
abbrev good_row_at : ℕ → KeyUsage ℕ
good_row_at i = record (used_up i) { session_resets_at = some (codes "2026-01-01") }

abbrev agreeing : UsageSnapshot ℕ
agreeing = record { fetched_at = 0; keys = good_row_at 0 ∷ good_row_at 1 ∷ [] }

aggregate-Reports_example :
    Reports whole_floats
      (aggregate whole_floats agreeing (1 ∷ 3 ∷ [])).session
      (aggregate whole_floats agreeing (1 ∷ 3 ∷ [])).session_resets_at
      (resets whole_floats KeyUsage.session KeyUsage.session_resets_at agreeing.keys)
    × Reports whole_floats
        (aggregate whole_floats agreeing (1 ∷ 3 ∷ [])).weekly
        (aggregate whole_floats agreeing (1 ∷ 3 ∷ [])).weekly_resets_at
        (resets whole_floats KeyUsage.weekly KeyUsage.weekly_resets_at agreeing.keys)
aggregate-Reports_example = aggregate-Reports whole_floats agreeing (1 ∷ 3 ∷ [])

row_of-Carries_example :
    ((row : KeyUsage ℕ)
      → ◌≡◌ {A = Bool} true true
      → good_row (some agreeing) 1 ≡ some row
      → row_of whole_floats (some agreeing) clock 1 [] true (some (failed (status 503)))
        ≡ record row { as_of = some (fetch_time agreeing clock row) })
    × (((◌≡◌ {A = Bool} true false) ⊎ (good_row (some agreeing) 1 ≡ none))
        → IsErrorRow 1 []
            (reason_of {F = ℕ} true (some (failed (status 503))))
            (row_of whole_floats (some agreeing) clock 1 [] true (some (failed (status 503)))))
row_of-Carries_example =
    row_of-Carries whole_floats agreeing clock 1 [] true (some (failed (status 503))) refl
