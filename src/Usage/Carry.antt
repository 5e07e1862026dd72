-- ===== src/Usage/Carry.antt =====
-- src/usage.rs: what becomes of the row of a key whose fetch failed.
use ollamux.Base.{
  ℕ, ◌≡◌, refl, ap, ◌∙◌, Bool, true, false, ◌&&◌, ◌||◌, Option, none, some, leb, ◌==◌, option-elim,
  if◌then◌else◌, [], ◌++◌, codes, Bool-cases, inl, inr, ◌⊎◌, Text, arith,
}
use ollamux.Snapshot.{Floats, KeyUsage, UsageSnapshot}
use ollamux.Usage.Tracker.{
  status, network, rate_limited, drift, Fetched, fetched, failed, Clock, failed_row, updated_unix,
  original_time, carried, good_row, carried_or_failed, transient_status, status_reason, normalise,
  error_row, row_of,
}

-- A failure that may pass by itself: a rate limit, a server error, the network, or no answer at all.
abbrev pub passes : {F : Type 0} → Option (Fetched F) → Bool
passes none = true
passes (some (fetched p)) = false
passes (some (failed (network e))) = true
passes (some (failed (rate_limited ra))) = true
passes (some (failed (status code))) = code == 429 || (leb 500 code && leb code 599)
passes (some (failed (drift msg))) = false

abbrev pub is_failure : {F : Type 0} → Option (Fetched F) → Bool
is_failure none = true
is_failure (some (fetched p)) = false
is_failure (some (failed e)) = true

-- What a row says of a failure.
abbrev pub reason_of : {F : Type 0} → Bool → Option (Fetched F) → Text
reason_of eligible none =
    if eligible then codes "network: no result" else codes "rate limited (upstream 429)"
reason_of eligible (some (fetched p)) = []
reason_of eligible (some (failed (network e))) = codes "network: " ++ e
reason_of eligible (some (failed (rate_limited ra))) = codes "rate limited (upstream 429)"
reason_of eligible (some (failed (drift msg))) = msg
reason_of eligible (some (failed (status code))) =
    if code == 429 then codes "rate limited (upstream 429)" else status_reason code

-- The row of that key reports that error, and nothing else: no status, no numbers and no times.
pub record IsErrorRow {F : Type 0} (i : ℕ) (suffix reason : Text) (row : KeyUsage F) : Type 0 where
  pub index : row.index ≡ i
  pub named : row.suffix ≡ suffix
  pub not_ok : row.is_ok ≡ false
  pub error : row.error ≡ some reason
  pub no_status : row.status ≡ none
  pub no_fractions : (row.session ≡ none) × (row.weekly ≡ none)
  pub no_percents : (row.session_pct ≡ none) × (row.weekly_pct ≡ none)
  pub no_resets : (row.session_resets_at ≡ none) × (row.weekly_resets_at ≡ none)
  pub no_balances :
      (row.included_usd ≡ none) × (row.allowance_usd ≡ none) × (row.purchased_usd ≡ none)
  pub no_time : row.as_of ≡ none

-- The Unix time at which the numbers of a row of the snapshot were fetched.
abbrev pub fetch_time : {F : Type 0} → UsageSnapshot F → Clock → KeyUsage F → ℕ
fetch_time prev c row = elim row.as_of [ none ↦ updated_unix prev c | some t ↦ t ]

module _ {F : Type 0} (fl : Floats F) where
  -- What a failure leaves of the previous row.
  abbrev Carries : UsageSnapshot F → Clock → ℕ → Text → Text → Bool → KeyUsage F → Type 0
  Carries prev c i suffix reason transient new =
      ((row : KeyUsage F)
        → transient ≡ true
        → good_row (some prev) i ≡ some row
        → new ≡ record row { as_of = some (fetch_time prev c row) })
      × ((transient ≡ false) ⊎ (good_row (some prev) i ≡ none) → IsErrorRow i suffix reason new)

  original_time-fetch_time :
      (prev : UsageSnapshot F) (c : Clock) (row : KeyUsage F)
      → original_time prev c row.as_of ≡ some (fetch_time prev c row)
  original_time-fetch_time prev c row = go row.as_of
    where
      go :
          (o : Option ℕ)
          → original_time prev c o ≡ some (elim o [ none ↦ updated_unix prev c | some t ↦ t ])
      go none = refl
      go (some t) = refl

  failed-IsErrorRow :
      (i : ℕ) (suffix reason : Text)
      → IsErrorRow {F = F} i suffix reason (failed_row i suffix reason)
  unfolding failed_row
  failed-IsErrorRow i suffix reason = record {
    index = refl;
    named = refl;
    not_ok = refl;
    error = refl;
    no_status = refl;
    no_fractions = (refl, refl);
    no_percents = (refl, refl);
    no_resets = (refl, refl);
    no_balances = (refl, refl, refl);
    no_time = refl;
  }

  carried_or_failed-Carries :
      (prev : UsageSnapshot F) (c : Clock) (i : ℕ) (suffix reason : Text) (transient : Bool)
      → Carries prev c i suffix reason transient
          (carried_or_failed (some prev) c i suffix reason transient)
  unfolding carried_or_failed carried
  carried_or_failed-Carries prev c i suffix reason false =
      (λ row t g. cc, λ h. failed-IsErrorRow i suffix reason)
  carried_or_failed-Carries prev c i suffix reason true =
      option-elim (Carries prev c i suffix reason true) (good_row (some prev) i)
        (failed_row i suffix reason) (carried prev c)
        (λ n. (λ row t g. absurd (ground arith), λ h. failed-IsErrorRow i suffix reason))
        (λ good found. (
          λ row t g.
              let same : good ≡ row = cc in
              ap (carried prev c) same
              ∙ ap (λ o. record row { as_of = o }) (original_time-fetch_time prev c row),
          λ h. elim h [ inl e ↦ absurd (ground arith) | inr e ↦ absurd (ground arith) ],
        ))

  -- A fetch of a key that failed in a round with a snapshot of an earlier one: if the failure may
  -- pass, and the key has a good row in that snapshot, the new row is that row with its numbers as
  -- they were, and with the time at which they were fetched, however often it was carried on since;
  -- if the failure is lasting, or there is no such row, the new row is that of the key and says what
  -- failed, and it has no status, no numbers, no reset times and no time of a fetch.
  pub row_of-Carries :
      (prev : UsageSnapshot F) (c : Clock) (i : ℕ) (suffix : Text) (eligible : Bool)
      (ans : Option (Fetched F))
      → is_failure ans ≡ true
      → ((row : KeyUsage F)
          → passes ans ≡ true
          → good_row (some prev) i ≡ some row
          → row_of fl (some prev) c i suffix eligible ans
            ≡ record row { as_of = some (fetch_time prev c row) })
        × ((passes ans ≡ false) ⊎ (good_row (some prev) i ≡ none)
            → IsErrorRow i suffix
                (reason_of eligible ans)
                (row_of fl (some prev) c i suffix eligible ans))
  unfolding row_of error_row normalise
  row_of-Carries prev c i suffix eligible none f = elim (Bool-cases eligible) [
    | inl asked ↦ rw asked (carried_or_failed-Carries prev c i suffix _ true)
    | inr sat_out ↦ rw sat_out (carried_or_failed-Carries prev c i suffix _ true)
  ]
  row_of-Carries prev c i suffix eligible (some (fetched p)) f = absurd cc
  row_of-Carries prev c i suffix eligible (some (failed (network e))) f =
      carried_or_failed-Carries prev c i suffix _ true
  row_of-Carries prev c i suffix eligible (some (failed (rate_limited ra))) f =
      carried_or_failed-Carries prev c i suffix _ true
  row_of-Carries prev c i suffix eligible (some (failed (drift msg))) f =
      (λ row t g. absurd cc, λ h. failed-IsErrorRow i suffix msg)
  row_of-Carries prev c i suffix eligible (some (failed (status code))) f =
      elim (Bool-cases (code == 429)) [
        | inl limited ↦ rw limited (carried_or_failed-Carries prev c i suffix _ true)
        | inr other ↦ rw other (carried_or_failed-Carries prev c i suffix _ (transient_status code))
      ]
