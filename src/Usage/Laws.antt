-- ===== src/Usage/Laws.antt =====
-- src/usage.rs: how often a round of fetches is run, and what a round leaves behind.
use ollamux.Base.{
  ℕ, zero, suc, ◌-◌, ◌<◌, ◌≡◌, refl, sym, ◌∙◌, ap, Bool, false, Option, some, List, length,
  Bool-cases, Option-cases, inl, inr, arith,
}
use ollamux.Snapshot.{Floats, UsageSnapshot}
use ollamux.Pool.{suffix_of}
use ollamux.Usage.Tracker.{
  Fetched, Clock, Tracker, is_fresh, backoff_of, set_backoff, RoundResult, answer, round_rows,
  conclude, do_fetch_inner, attempt_cooldown_left, wait_or_peek, refresh, tick,
}

module _ {F : Type 0} (fl : Floats F) where
  -- A round ran on `t` under the clock `c`, and `t'` and `snap` came of it.
  abbrev pub Ran :
      Tracker F → (ℕ → Option (Fetched F)) → Clock → Tracker F → UsageSnapshot F → Type 0
  Ran t fetch c t' snap = do_fetch_inner fl t fetch c ≡ some (t', snap)

  pub conclude-frame :
      (t : Tracker F) (c : Clock) (r : RoundResult fl)
      → let t' = (conclude fl t c r).0 in
        (t'.snapshot ≡ some (conclude fl t c r).1)
        × (t'.last_attempt ≡ t.last_attempt)
        × (t'.min_refresh ≡ t.min_refresh)
        × (t'.backoff_until ≡ t.backoff_until)
  unfolding conclude
  conclude-frame t c r = elim (Bool-cases r.any_fresh) [
    | inl e ↦ rw e (refl, refl, refl, refl)
    | inr e ↦ elim (Option-cases t.snapshot) [
      | inl n ↦ rw (e, n) (refl, refl, refl, refl)
      | inr (prev, s) ↦ rw (e, s) (s, refl, refl, refl)
    ]
  ]

  pub Ran-rows :
      (t t' : Tracker F) (snap : UsageSnapshot F) (fetch : ℕ → Option (Fetched F)) (c : Clock)
      → Ran t fetch c t' snap
      → (r : RoundResult fl) × (round_rows fl t fetch c 0 (length t.pool.states) t.backoff_until
          ≡ some r)
        × (conclude fl (record t { last_attempt = some c.ended; backoff_until = r.backoff }) c r
            ≡ (t', snap))
  unfolding do_fetch_inner
  Ran-rows t t' snap fetch c e =
      elim (Option-cases (round_rows fl t fetch c 0 (length t.pool.states) t.backoff_until)) [
        | inl n ↦ absurd (ground arith)
        | inr (r, some_r) ↦ (r, some_r, ground arith)
      ]

  cooling_lem :
      (t : Tracker F) (ended now : ℕ)
      → t.last_attempt ≡ some ended
      → now - ended < t.min_refresh
      → attempt_cooldown_left fl t now ≡ some (t.min_refresh - (now - ended))
  unfolding attempt_cooldown_left
  cooling_lem t ended now e h = ground arith

  refresh-cooling :
      (t : Tracker F) (snap : UsageSnapshot F) (left : ℕ) (fetch : ℕ → Option (Fetched F))
      (c : Clock)
      → t.snapshot ≡ some snap
      → attempt_cooldown_left fl t c.started ≡ some left
      → refresh fl t fetch c ≡ some (t, snap)
  unfolding refresh wait_or_peek
  refresh-cooling t snap left fetch c s e = ground arith

  tick-cooling :
      (t : Tracker F) (left : ℕ) (contended : Bool) (fetch : ℕ → Option (Fetched F)) (c : Clock)
      → attempt_cooldown_left fl t c.started ≡ some left
      → tick fl t contended fetch c ≡ some (t, false)
  unfolding tick
  tick-cooling t left contended fetch c e = ground arith

  -- For `min_refresh` after a round has ended no other round is run, whether the fetches of that
  -- round went well or not: `refresh` returns the snapshot that the round returned and `tick` does
  -- nothing, both without a change to the tracker, whatever the upstream would answer.
  pub no_round_within_min_refresh :
      (t t' : Tracker F) (snap : UsageSnapshot F) (fetch fetch' : ℕ → Option (Fetched F))
      (c c' : Clock) (contended : Bool)
      → do_fetch_inner fl t fetch c ≡ some (t', snap)
      → c'.started - c.ended < t.min_refresh
      → (refresh fl t' fetch' c' ≡ some (t', snap))
        × (tick fl t' contended fetch' c' ≡ some (t', false))
  no_round_within_min_refresh t t' snap fetch fetch' c c' contended e h =
      let (r, ran, made) = Ran-rows t t' snap fetch c e in
      let (kept, attempted, refresh_kept, backoff_kept) =
        conclude-frame (record t { last_attempt = some c.ended; backoff_until = r.backoff }) c r in
      let same_tracker = ap (λ x. x.0) made in
      let same_snap = ap (λ x. x.1) made in
      let cooling =
        cooling_lem t' c.ended c'.started (rw (sym same_tracker) attempted)
          (rw (sym same_tracker, refresh_kept) h) in
      (
        refresh-cooling t' snap _ fetch' c' (rw (sym same_tracker, sym same_snap) kept) cooling,
        tick-cooling t' _ contended fetch' c' cooling,
      )

  abbrev pub NoneFresh : (ℕ → Option (Fetched F)) → List (Option ℕ) → Clock → Type 0
  NoneFresh fetch backoff c = (i : ℕ) → is_fresh fl (answer fl fetch backoff c i) ≡ false

  stale_rows :
      (t : Tracker F) (fetch : ℕ → Option (Fetched F)) (c : Clock) (i n : ℕ)
      (backoff : List (Option ℕ)) (r : RoundResult fl)
      → NoneFresh fetch t.backoff_until c
      → round_rows fl t fetch c i n backoff ≡ some r
      → r.any_fresh ≡ false
  unfolding round_rows
  stale_rows t fetch c i zero backoff r stale e = ground arith
  stale_rows t fetch c i (suc n) backoff r stale e =
      let backoff' =
        set_backoff fl i c.ended
          (backoff_of fl t.default_backoff (answer fl fetch t.backoff_until c i)) backoff in
      elim (Option-cases (round_rows fl t fetch c (suc i) n backoff')) [
        | inl out ↦ absurd (ground arith)
        | inr (rest, some_rest) ↦ elim (Option-cases (suffix_of t.pool i)) [
          | inl out ↦ absurd (ground arith)
          | inr (s, some_s) ↦
              let none_later = stale_rows t fetch c (suc i) n backoff' rest stale some_rest in
              ground (arith, stale i)
        ]
      ]

  conclude-stale :
      (t : Tracker F) (prev : UsageSnapshot F) (c : Clock) (r : RoundResult fl)
      → t.snapshot ≡ some prev
      → r.any_fresh ≡ false
      → conclude fl t c r ≡ (t, prev)
  unfolding conclude
  conclude-stale t prev c r s e = ground arith

  -- With a snapshot of an earlier round, a round in which no key reports usage keeps what there
  -- was: it returns that snapshot, and the pool with its over-quota mask, the snapshot and its time
  -- stay as they were, so that the snapshot ages; only the time of the attempt is the new one.
  pub stale_round :
      (t t' : Tracker F) (prev snap : UsageSnapshot F) (fetch : ℕ → Option (Fetched F)) (c : Clock)
      → do_fetch_inner fl t fetch c ≡ some (t', snap)
      → t.snapshot ≡ some prev
      → NoneFresh fetch t.backoff_until c
      → (snap ≡ prev)
        × (t'.pool ≡ t.pool)
        × (t'.snapshot ≡ t.snapshot)
        × (t'.last_attempt ≡ some c.ended)
  stale_round t t' prev snap fetch c e s stale =
      let (r, ran, made) = Ran-rows t t' snap fetch c e in
      let made' =
        conclude-stale (record t { last_attempt = some c.ended; backoff_until = r.backoff }) prev c
          r s (stale_rows t fetch c 0 (length t.pool.states) t.backoff_until r stale ran) in
      let both = sym made ∙ made' in
      (
        ap (λ x. x.1) both,
        ap (λ x. x.0.pool) both,
        ap (λ x. x.0.snapshot) both,
        ap (λ x. x.0.last_attempt) both,
      )
