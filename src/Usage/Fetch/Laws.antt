-- ===== src/Usage/Fetch/Laws.antt =====
-- src/usage.rs: what an answer of the upstream to the request for the quota of a key comes to.
use ollamux.Base.{
  ℕ, ◌+◌, ◌*◌, ◌^◌, ◌<◌, ◌≡◌, refl, sym, ap, ◌∙◌, true, Option, some, length, min, leb, ◌==◌, Text,
  decimal, Bool-cases, Option-cases, inl, inr, arith, codes, ◌++◌,
}
use ollamux.Base.Digits.{trim-decimal, parse_below-decimal}
use ollamux.Snapshot.{Floats, UsageSnapshot}
use ollamux.Pool.{Pool, secs, secret_of}
use ollamux.Usage.{
  Wire, UsagePayload, Parsed, payload, drifted, parse_payload, plausible, decode, clamp_backoff,
}
use ollamux.Usage.Tracker.{
  rate_limited, fetched, failed, Clock, Tracker, eligible_at, answer, do_fetch_inner,
}
use ollamux.Usage.Backoff.{rate_limited_backs_off}
use ollamux.Usage.Fetch.{
  Response, response, unreadable, error_status, no_answer, retry_after_seconds, parse_u64, Request,
  of_parsed, fetch_balance_http, fetch_key,
}

retry_after_seconds-decimal :
    (n : ℕ) → n < 2 ^ 64 → retry_after_seconds (some (decimal n)) ≡ some (secs n)
unfolding retry_after_seconds parse_u64
retry_after_seconds-decimal n u = rw (trim-decimal n, parse_below-decimal (2 ^ 64) n u) refl

min-secs : (n : ℕ) → min (secs n) (secs (5 * 60)) ≡ secs (min n 300)
min-secs n = ground arith

module _ {F : Type 0} (fl : Floats F) (from_str : Text → Option (Wire F)) where
  payload-injective : (p q : UsagePayload F) → ◌≡◌ {A = Parsed fl} (payload p) (payload q) → p ≡ q
  payload-injective p q e = cc

  parse_payload-full :
      (body : Text) (w : Wire F)
      → from_str body ≡ some w
      → plausible fl (decode fl w) ≡ true
      → parse_payload fl from_str body ≡ payload (decode fl w)
  unfolding parse_payload
  parse_payload-full body w read full = rw (parse_payload, read, full) refl

  parse_payload-payload :
      (body : Text) (p : UsagePayload F)
      → parse_payload fl from_str body ≡ payload p
      → (w : Wire F) × (from_str body ≡ some w) × (p ≡ decode fl w) × (plausible fl p ≡ true)
  unfolding parse_payload
  parse_payload-payload body p e = elim (Option-cases (from_str body)) [
    | inl n ↦ absurd (ground arith)
    | inr (w, read) ↦ elim (Bool-cases (plausible fl (decode fl w))) [
      | inr empty ↦ absurd (ground arith)
      | inl full ↦
          let same =
            payload-injective p (decode fl w) (sym e ∙ parse_payload-full body w read full) in
          (w, read, same, ap (plausible fl) same ∙ full)
    ]
  ]

  of_parsed-fetched :
      (r : Parsed fl) (p : UsagePayload F) → of_parsed fl from_str r ≡ fetched p → r ≡ payload p
  of_parsed-fetched (payload q) p e = cc
  of_parsed-fetched (drifted msg) p e = cc

  -- Usage comes only of a 200 whose body decodes to a payload that holds some number of the quota.
  pub fetch_balance_http-fetched :
      (r : Response) (p : UsagePayload F)
      → fetch_balance_http fl from_str r ≡ fetched p
      → (body : Text) × (w : Wire F) × (r ≡ response 200 body)
        × (from_str body ≡ some w)
        × (p ≡ decode fl w)
        × (plausible fl p ≡ true)
  unfolding fetch_balance_http
  fetch_balance_http-fetched (response code body) p e = elim (Bool-cases (code == 200)) [
    | inr other ↦ absurd (ground arith)
    | inl is_ok ↦
        let (w, read, same, full) =
          parse_payload-payload body p
            (of_parsed-fetched (parse_payload fl from_str body) p (ground arith)) in
        (body, w, ground arith, read, same, full)
  ]
  fetch_balance_http-fetched (unreadable code x) p e = absurd (ground arith)
  fetch_balance_http-fetched (error_status code h) p e = absurd (ground arith)
  fetch_balance_http-fetched (no_answer x) p e = cc

  limited :
      (upstream : Text) (call : Request → Response) (p : Pool) (i n : ℕ) (secret : Text)
      → secret_of p i ≡ some secret
      → call (upstream ++ codes "/api/balance", codes "Bearer " ++ secret)
        ≡ error_status 429 (some (decimal n))
      → n < 2 ^ 64
      → fetch_key fl from_str upstream call p i ≡ some (failed (rate_limited (some (secs n))))
  unfolding fetch_key fetch_balance_http
  limited upstream call p i n secret known answered u =
      rw (known, answered, retry_after_seconds-decimal n u) refl

  -- From the answer of the upstream to the next fetch: when the request for the quota of a key, with
  -- the secret of that key, is answered in a round by a 429 whose `Retry-After` is `n` in decimal,
  -- the key is fetched again no sooner than `n` seconds, or five minutes if that is less, after the
  -- end of the round, and may be fetched from then on. The backoff of the key is taken to be known
  -- to the tracker, and `n` to fit 64 bits.
  pub retry_after_respected :
      (upstream : Text) (call : Request → Response) (t t' : Tracker F) (snap : UsageSnapshot F)
      (c : Clock) (i n now : ℕ) (secret : Text)
      → do_fetch_inner fl t (fetch_key fl from_str upstream call t.pool) c ≡ some (t', snap)
      → i < length t.pool.states
      → i < length t.backoff_until
      → eligible_at t.backoff_until c.started i ≡ true
      → secret_of t.pool i ≡ some secret
      → call (upstream ++ codes "/api/balance", codes "Bearer " ++ secret)
        ≡ error_status 429 (some (decimal n))
      → n < 2 ^ 64
      → eligible_at t'.backoff_until now i ≡ leb (c.ended + secs (min n 300)) now
  unfolding clamp_backoff
  retry_after_respected upstream call t t' snap c i n now secret ran inside known ready found
        answered u =
      let got : answer fl (fetch_key fl from_str upstream call t.pool) t.backoff_until c i
          ≡ some (failed (rate_limited (some (secs n)))) =
        rw ready (limited upstream call t.pool i n secret found answered u) in
      (rate_limited_backs_off fl t t' snap (fetch_key fl from_str upstream call t.pool) c i now
        (some (secs n)) ran inside known got).0
      ∙ ap (λ d. leb (c.ended + d) now) (min-secs n)
