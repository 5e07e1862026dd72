-- ===== src/Usage/Fetch/Tests.antt =====
-- src/usage.rs: answers of the upstream at concrete inputs, and the theorems on them.
use ollamux.Base.{
  ℕ, ◌+◌, ◌≡◌, refl, true, Option, none, some, [], ◌∷◌, codes, Text, min, leb, decimal, arith,
  is_digit, trim, is_whitespace,
}
use ollamux.Samples.{three_keys, one_state, whole_floats, usage_of_second}
use ollamux.Pool.{Pool, secs, secret_of}
use ollamux.Usage.{Wire, decode, plausible, parse_payload, UsagePayload, clamp_backoff}
use ollamux.Usage.Tracker.{Tracker, Clock, eligible_at, do_fetch_inner}
use ollamux.Usage.Fetch.{
  Response, response, error_status, Request, fetch_balance_http, fetch_key, retry_after_seconds,
}
use ollamux.Usage.Fetch.Laws.{fetch_balance_http-fetched, retry_after_respected}

abbrev wire : Wire ℕ
wire = record {
  included = some (record {
    session = some (record { remaining_percent = some 75; resets_at = none });
    weekly = none;
    balance_usd = none;
    allowance_usd = none;
  });
  purchased = none;
}

abbrev from_str : Text → Option (Wire ℕ)
from_str body = some wire

abbrev decoded : UsagePayload ℕ
decoded = decode whole_floats wire

fetch_balance_http-fetched_example :
    (body : Text) × (w : Wire ℕ) × (response 200 (codes "{}") ≡ response 200 body)
    × (from_str body ≡ some w)
    × (decoded ≡ decode whole_floats w)
    × (plausible whole_floats decoded ≡ true)
unfolding fetch_balance_http parse_payload plausible decode
fetch_balance_http-fetched_example =
    fetch_balance_http-fetched whole_floats from_str (response 200 (codes "{}")) decoded refl

abbrev one_key : Pool
one_key = record three_keys { keys = codes "key-aaaa" ∷ []; states = one_state ∷ [] }

abbrev tracker : Tracker ℕ
tracker = record {
  pool = one_key;
  ttl = secs 60;
  snapshot = some usage_of_second;
  last_attempt = none;
  min_refresh = secs 5;
  backoff_until = none ∷ [];
  default_backoff = secs 60;
}

abbrev clock : Clock
clock = record { started = secs 100; ended = secs 101; unix = 1_000_000 }

-- The upstream asks for 90 seconds.
abbrev call : Request → Response
call r = error_status 429 (some (decimal 90))

abbrev after : Tracker ℕ
after = record tracker { last_attempt = some (secs 101); backoff_until = some (secs 191) ∷ [] }

retry_after_respected_example :
    eligible_at after.backoff_until (secs 150) 0 ≡ leb (secs 101 + secs (min 90 300)) (secs 150)
unfolding do_fetch_inner fetch_key fetch_balance_http retry_after_seconds secret_of decimal trim
    is_whitespace is_digit clamp_backoff
retry_after_respected_example =
    retry_after_respected whole_floats from_str (codes "https://ollama.com") call tracker after
      usage_of_second clock 0 90 (secs 150) (codes "key-aaaa") refl (omega arith) (omega arith) refl
      refl refl (omega arith)
