-- ===== src/Usage/Tracker/Rows.antt =====
-- src/usage.rs: what the fetch of one key comes to in a round, and the row that the snapshot gets for
-- it.
use ollamux.Base.{
  ℕ, ◌-◌, Bool, true, false, ◌&&◌, ◌||◌, Option, none, some, ◌>>=◌, List, ◌++◌, get_elem?, leb,
  ◌==◌, if◌then◌else◌, Text, codes, decimal,
}
use ollamux.Snapshot.{Floats, KeyUsage, UsageSnapshot}
use ollamux.Pool.{as_secs}
use ollamux.Pool.Quota.{pct}
use ollamux.Usage.{UsagePayload, BalanceLimit, IncludedBalance, option_map, used_fraction, round3}

pub data FetchError : Type 0 where
  status : ℕ → FetchError
  network : Text → FetchError
  rate_limited : Option ℕ → FetchError
  drift : Text → FetchError

pub data Fetched (F : Type 0) : Type 0 where
  fetched : UsagePayload F → Fetched F
  failed : FetchError → Fetched F

-- The clock of a round: the monotonic clock before and after the fetches, and the Unix time in
-- seconds after them.
pub record Clock : Type 0 where
  pub started : ℕ
  pub ended : ℕ
  pub unix : ℕ

-- `KeyUsage::failed`.
unfoldable pub failed_row : {F : Type 0} → ℕ → Text → Text → KeyUsage F
failed_row i suffix reason = record {
  index = i;
  suffix = suffix;
  is_ok = false;
  status = none;
  session = none;
  weekly = none;
  session_pct = none;
  weekly_pct = none;
  session_resets_at = none;
  weekly_resets_at = none;
  included_usd = none;
  allowance_usd = none;
  purchased_usd = none;
  as_of = none;
  error = some reason;
}

unfoldable pub updated_unix : {F : Type 0} → UsageSnapshot F → Clock → ℕ
updated_unix snap c = c.unix - as_secs (c.ended - snap.fetched_at)

abbrev pub original_time : {F : Type 0} → UsageSnapshot F → Clock → Option ℕ → Option ℕ
original_time prev c none = some (updated_unix prev c)
original_time prev c (some t) = some t

unfoldable pub carried : {F : Type 0} → UsageSnapshot F → Clock → KeyUsage F → KeyUsage F
carried prev c row = record row { as_of = original_time prev c row.as_of }

-- The row of the previous snapshot, if it is a good one.
abbrev pub good_row : {F : Type 0} → Option (UsageSnapshot F) → ℕ → Option (KeyUsage F)
good_row none i = none
good_row (some snap) i = get_elem? snap.keys i >>= λ row. if row.is_ok then some row else none

unfoldable pub carried_or_failed :
    {F : Type 0} → Option (UsageSnapshot F) → Clock → ℕ → Text → Text → Bool → KeyUsage F
unfolding carried failed_row
carried_or_failed none c i suffix reason transient = failed_row i suffix reason
carried_or_failed (some prev) c i suffix reason false = failed_row i suffix reason
carried_or_failed (some prev) c i suffix reason true = elim (good_row (some prev) i) [
  | none ↦ failed_row i suffix reason
  | some row ↦ carried prev c row
]

-- No backoff, or one that has passed.
unfoldable pub eligible_at : List (Option ℕ) → ℕ → ℕ → Bool
eligible_at backoff now i = elim (get_elem? backoff i) [
  | none ↦ true
  | some none ↦ true
  | some (some until) ↦ leb until now
]

-- Which error statuses may pass, and what the row says of a status.
abbrev pub transient_status : ℕ → Bool
transient_status code = leb 500 code && leb code 599

unfoldable pub status_reason : ℕ → Text
status_reason code =
    if code == 401 || code == 403
    then codes "unauthorized"
    else (if code == 404
        then codes "endpoint gone (upstream 404)"
        else codes "upstream HTTP " ++ decimal code)

-- `Status(429)` counts as `RateLimited(None)`.
unfoldable pub normalise : FetchError → FetchError
normalise (status code) = if code == 429 then rate_limited none else status code
normalise (network e) = network e
normalise (rate_limited ra) = rate_limited ra
normalise (drift msg) = drift msg

module _ {F : Type 0} (fl : Floats F) where
  unfoldable pub good_payload_row : ℕ → Text → UsagePayload F → KeyUsage F
  unfolding used_fraction round3 pct
  good_payload_row i suffix p =
      let session = option_map (round3 fl) (p.session >>= used_fraction fl) in
      let weekly = option_map (round3 fl) (p.weekly >>= used_fraction fl) in
      record {
        index = i;
        suffix = suffix;
        is_ok = true;
        status = some 200;
        session = session;
        weekly = weekly;
        session_pct = option_map (pct fl) session;
        weekly_pct = option_map (pct fl) weekly;
        session_resets_at = p.session >>= λ s. BalanceLimit.resets_at s;
        weekly_resets_at = p.weekly >>= λ w. BalanceLimit.resets_at w;
        included_usd = p.included_usd >>= λ u. IncludedBalance.balance_usd u;
        allowance_usd = p.included_usd >>= λ u. IncludedBalance.allowance_usd u;
        purchased_usd = p.purchased_usd;
        as_of = none;
        error = none;
      }

  unfoldable pub error_row : Option (UsageSnapshot F) → Clock → ℕ → Text → FetchError → KeyUsage F
  unfolding carried_or_failed failed_row status_reason
  error_row prev c i suffix (rate_limited ra) =
      carried_or_failed prev c i suffix (codes "rate limited (upstream 429)") true
  error_row prev c i suffix (status code) =
      carried_or_failed prev c i suffix (status_reason code) (transient_status code)
  error_row prev c i suffix (network e) =
      carried_or_failed prev c i suffix (codes "network: " ++ e) true
  error_row prev c i suffix (drift msg) = failed_row i suffix msg

  -- The row of key `i`; `none` for a key that sat the round out or whose thread yielded nothing.
  unfoldable pub row_of :
      Option (UsageSnapshot F) → Clock → ℕ → Text → Bool → Option (Fetched F) → KeyUsage F
  unfolding good_payload_row error_row normalise carried_or_failed
  row_of prev c i suffix eligible (some (fetched p)) = good_payload_row i suffix p
  row_of prev c i suffix eligible (some (failed e)) = error_row prev c i suffix (normalise e)
  row_of prev c i suffix eligible none =
      if eligible
      then carried_or_failed prev c i suffix (codes "network: no result") true
      else carried_or_failed prev c i suffix (codes "rate limited (upstream 429)") true
