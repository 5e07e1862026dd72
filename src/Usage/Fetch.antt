-- ===== src/Usage/Fetch.antt =====
-- src/usage.rs: `fetch_balance_http`, one request for the quota of one key. What `call` returns is
-- an argument; `from_str` is that of `serde_json`.
pub mod Laws
mod Tests
use ollamux.Base.{
  is_empty, ℕ, ◌*◌, ◌^◌, Bool, true, false, not, ◌&&◌, Option, none, some, ◌>>=◌, List, [], ◌∷◌,
  ◌++◌, all, ltb, ◌==◌, if◌then◌else◌, Text, String, codes, trim, is_digit, digits_value,
}
use ollamux.Pool.{Pool, secs, secret_of}
use ollamux.Base.Digits.{parse_below}
use ollamux.Snapshot.{Floats}
use ollamux.Usage.{Wire, Parsed, payload, drifted, parse_payload}
use ollamux.Usage.Tracker.{
  FetchError, status, network, rate_limited, drift, Fetched, fetched, failed,
}

-- `str::parse::<u64>`
unfoldable pub parse_u64 : Text → Option ℕ
unfolding parse_below
parse_u64 t = parse_below (2 ^ 64) t

-- `retry_after_seconds`: the header, if it is there and a number of seconds.
unfoldable pub retry_after_seconds : Option Text → Option ℕ
unfolding parse_u64 trim
retry_after_seconds header = header >>= λ v. parse_u64 (trim v) >>= λ s. some (secs s)

-- What the call comes to: a status below 400 with the body, or why it cannot be read; a status from
-- 400 on with its `Retry-After`; or no answer.
pub data Response : Type 0 where
  response : ℕ → Text → Response
  unreadable : ℕ → Text → Response
  error_status : ℕ → Option Text → Response
  no_answer : Text → Response

-- The URL of a request for the quota of a key, and its `Authorization`.
abbrev pub Request : Type 0
Request = Text × Text

module _ {F : Type 0} (fl : Floats F) (from_str : Text → Option (Wire F)) where
  abbrev pub of_parsed : Parsed fl → Fetched F
  of_parsed (payload p) = fetched p
  of_parsed (drifted msg) = failed (drift (codes msg))

  -- Redirects are off: a 3xx is a response here, and a failure.
  unfoldable pub fetch_balance_http : Response → Fetched F
  unfolding parse_payload retry_after_seconds
  fetch_balance_http (response code body) =
      if not (code == 200) then failed (status code) else of_parsed (parse_payload fl from_str body)
  fetch_balance_http (unreadable code e) =
      if not (code == 200) then failed (status code) else failed (network e)
  fetch_balance_http (error_status code retry_after) =
      if code == 429
      then failed (rate_limited (retry_after_seconds retry_after))
      else failed (status code)
  fetch_balance_http (no_answer e) = failed (network e)

  -- One fetch of `fetch_all`, with `call` for what the upstream answers to a request.
  unfoldable pub fetch_key : Text → (Request → Response) → Pool → ℕ → Option (Fetched F)
  unfolding fetch_balance_http secret_of
  fetch_key upstream call p i = secret_of p i >>= λ secret.
      some (fetch_balance_http (call (upstream ++ codes "/api/balance", codes "Bearer " ++ secret)))
