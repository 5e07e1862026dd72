-- ===== src/Proxy/Poller/Laws.antt =====
-- src/proxy.rs: how often the usage poller ticks, and that it notices the stop flag.
use ollamux.Base.{
  ℕ, ◌+◌, ◌-◌, ◌*◌, ◌≤◌, ◌≡◌, sym, ap, ◌∙◌, subst, Bool, true, false, Option, none, some, List, [],
  ◌∷◌, All, length, ltb, Bool-cases, Option-cases, inl, inr, arith,
}
use ollamux.Snapshot.{Floats, UsageSnapshot}
use ollamux.Usage.{usage_ttl}
use ollamux.Usage.Tracker.{
  Fetched, Clock, Tracker, RoundResult, conclude, tick, do_fetch_inner, fresh_snapshot,
  attempt_cooldown_left,
}
use ollamux.Usage.Laws.{Ran-rows}
use ollamux.Proxy.Poller.{Look, Lap, Nap, woke, stopped, nap, Tick, poll}

abbrev pub quarter : ℕ
quarter = 250_000_000

-- The looks of a nap follow each other by 250 ms or more, as the thread sleeps in between.
abbrev pub Sleeps : ℕ → List Look → Type 0
Sleeps from [] = Unit {0}
Sleeps from (l ∷ ls) = (from ≤ l.now) × Sleeps (l.now + quarter) ls

nap-woke :
    (deadline : ℕ) (looks : List Look) (now : ℕ)
    → nap deadline looks ≡ some (woke now)
    → deadline ≤ now
unfolding nap
nap-woke deadline [] now e = cc
nap-woke deadline (l ∷ ls) now e = elim (Bool-cases (ltb l.now deadline)) [
  | inl before ↦ elim (Bool-cases l.stop) [
    | inl set ↦ absurd (ground arith)
    | inr unset ↦ nap-woke deadline ls now (ground arith)
  ]
  | inr past ↦ ground arith
]

nap-ends :
    (deadline from : ℕ) (looks : List Look)
    → Sleeps from looks
    → 1 ≤ length looks
    → deadline ≤ from + quarter * (length looks - 1)
    → (n : Nap) × (nap deadline looks ≡ some n)
unfolding nap
nap-ends deadline from [] s few e = absurd (omega arith)
nap-ends deadline from (l ∷ []) (s, ss) few e = (woke l.now, ground arith)
nap-ends deadline from (l ∷ m ∷ ls) (s, ss) few e = elim (Bool-cases (ltb l.now deadline)) [
  | inr past ↦ (woke l.now, ground arith)
  | inl before ↦ elim (Bool-cases l.stop) [
    | inl set ↦ (stopped, ground arith)
    | inr unset ↦
        let (n, made) =
          nap-ends deadline (l.now + quarter) (m ∷ ls) ss (omega arith) (omega arith) in
        (n, ground arith)
  ]
]

-- The nap between two ticks ends: within 241 looks, sleeping 250 ms or more between two of them, its
-- minute is over or the stop flag is seen.
pub nap_ends :
    (ticked : ℕ) (looks : List Look)
    → Sleeps ticked looks
    → 241 ≤ length looks
    → (n : Nap) × (nap (ticked + usage_ttl) looks ≡ some n)
nap_ends ticked looks s many =
    nap-ends (ticked + usage_ttl) ticked looks s (omega arith) (omega arith)

-- The clock of a lap, from `from` on; the next lap begins after the nap's last reading.
abbrev pub Orderly : {F : Type 0} → ℕ → List (Lap F) → Type 0
Orderly from [] = Unit {0}
Orderly from (lap ∷ laps) =
    (from ≤ Clock.started lap.clock)
    × (Clock.started lap.clock ≤ Clock.ended lap.clock)
    × (Clock.ended lap.clock ≤ lap.ticked)
    × ((now : ℕ) → nap (lap.ticked + usage_ttl) lap.looks ≡ some (woke now) → Orderly now laps)

-- Ticks that each ran a round, a minute or more after the one before, the first not before `from`.
abbrev pub EachRan : ℕ → List Tick → Type 0
EachRan from [] = Unit {0}
EachRan from (x ∷ xs) = (from ≤ x.at) × (x.ran ≡ true) × EachRan (x.at + usage_ttl) xs

EachRan-later : (a b : ℕ) (xs : List Tick) → a ≤ b → EachRan b xs → EachRan a xs
EachRan-later a b [] h e = tt
EachRan-later a b (x ∷ xs) h (l, r, e) = (omega arith, r, e)

module _ {F : Type 0} (fl : Floats F) where
  -- Nothing of the tracker is fresh at `now`.
  abbrev pub Expired : ℕ → Tracker F → Type 0
  Expired now t =
      ((snap : UsageSnapshot F) → t.snapshot ≡ some snap → snap.fetched_at + t.ttl ≤ now)
      × ((last : ℕ) → t.last_attempt ≡ some last → last + t.min_refresh ≤ now)
      × (t.ttl ≤ usage_ttl)
      × (t.min_refresh ≤ usage_ttl)

  Expired-later : (a b : ℕ) (t : Tracker F) → a ≤ b → Expired a t → Expired b t
  Expired-later a b t h (snap, last, ttl, min_refresh) =
      (λ s e. omega (arith, snap s e), λ l e. omega (arith, last l e), ttl, min_refresh)

  not_fresh : (t : Tracker F) (now : ℕ) → Expired now t → fresh_snapshot fl t now ≡ none
  unfolding fresh_snapshot
  not_fresh t now (snap, last, ttl, min_refresh) = elim (Option-cases t.snapshot) [
    | inl n ↦ ground arith
    | inr (s, e) ↦ ground (arith, snap s e)
  ]

  not_cooling : (t : Tracker F) (now : ℕ) → Expired now t → attempt_cooldown_left fl t now ≡ none
  unfolding attempt_cooldown_left
  not_cooling t now (snap, last, ttl, min_refresh) = elim (Option-cases t.last_attempt) [
    | inl n ↦ ground arith
    | inr (l, e) ↦ ground (arith, last l e)
  ]

  tick-runs :
      (t u : Tracker F) (fetch : ℕ → Option (Fetched F)) (c : Clock) (ran : Bool)
      → Expired c.started t
      → tick fl t false fetch c ≡ some (u, ran)
      → (ran ≡ true) × (snap : UsageSnapshot F) × (do_fetch_inner fl t fetch c ≡ some (u, snap))
  unfolding tick
  tick-runs t u fetch c ran old e =
      let fresh = not_fresh t c.started old in
      let cooling = not_cooling t c.started old in
      elim (Option-cases (do_fetch_inner fl t fetch c)) [
        | inl n ↦ absurd (ground arith)
        | inr ((v, snap), made) ↦
            let same : v ≡ u = ground arith in
            (ground arith, snap, made ∙ ap (λ (w : Tracker F). some (w, snap)) same)
      ]

  conclude-Expired :
      (t : Tracker F) (c : Clock) (r : RoundResult fl)
      → c.started ≤ c.ended
      → Expired c.started t
      → Expired
          (c.ended + usage_ttl)
          (conclude fl (record t { last_attempt = some c.ended; backoff_until = r.backoff }) c r).0
  unfolding conclude
  conclude-Expired t c r order (snap, last, ttl, min_refresh) = elim (Bool-cases r.any_fresh) [
    | inl e ↦ rw e (λ s e. ground arith, λ l e. ground arith, ttl, min_refresh)
    | inr e ↦ elim (Option-cases t.snapshot) [
      | inl n ↦ rw (e, n) (λ s e. ground arith, λ l e. ground arith, ttl, min_refresh)
      | inr (prev, p) ↦
          rw (e, p) (λ s e. ground (arith, snap s), λ l e. ground arith, ttl, min_refresh)
    ]
  ]

  Ran-Expired :
      (t u : Tracker F) (snap : UsageSnapshot F) (fetch : ℕ → Option (Fetched F)) (c : Clock)
      → c.started ≤ c.ended
      → Expired c.started t
      → do_fetch_inner fl t fetch c ≡ some (u, snap)
      → Expired (c.ended + usage_ttl) u
  Ran-Expired t u snap fetch c order old e =
      let (r, ran, made) = Ran-rows fl t u snap fetch c e in
      subst (Expired (c.ended + usage_ttl)) (ap (λ x. x.0) made) (conclude-Expired t c r order old)

  -- Nothing else fetches meanwhile.
  abbrev pub Alone : List (Lap F) → Type 0
  Alone = All (λ (lap : Lap F). lap.contended ≡ false)

  -- Where nothing else fetches, and neither the snapshot nor the last attempt of a tracker, if it
  -- has any, is of less than its limits ago when the usage poller begins, the limits being a minute
  -- at most, the ticks of the poller start at least a minute apart, the first of them not before the
  -- poller begins, and each of them runs a round of fetches. The clock is taken not to go back.
  pub poll-EachRan :
      (t u : Tracker F) (from : ℕ) (laps : List (Lap F)) (ticks : List Tick)
      → Expired from t
      → Alone laps
      → Orderly from laps
      → poll fl t laps ≡ some (u, ticks)
      → EachRan from ticks
  unfolding poll
  poll-EachRan t u from [] ticks old alone order e = subst (EachRan from) {x = []} (ground arith) tt
  poll-EachRan t u from (lap ∷ laps) ticks old (only, alone) (after, inside, tail, later) e =
      elim (Bool-cases lap.stop) [
        | inl stop ↦ subst (EachRan from) {x = []} (ground arith) tt
        | inr goes ↦ elim (Option-cases (tick fl t lap.contended lap.fetch lap.clock)) [
          | inl n ↦ absurd (ground arith)
          | inr ((v, ran), ticked) ↦
              let old' = Expired-later from lap.clock.started t after old in
              let (is_run, snap, made) =
                tick-runs t v lap.fetch lap.clock ran old'
                  (ap (λ b. tick fl t b lap.fetch lap.clock) (sym only) ∙ ticked) in
              let this : Tick = record { at = lap.clock.started; ran = ran } in
              elim (Option-cases (nap (lap.ticked + usage_ttl) lap.looks)) [
                | inl n ↦ subst (EachRan from) {x = this ∷ []} (ground arith) (after, is_run, tt)
                | inr (stopped, ended) ↦
                    subst (EachRan from) {x = this ∷ []} (ground arith) (after, is_run, tt)
                | inr (woke now, ended) ↦
                    let past = nap-woke (lap.ticked + usage_ttl) lap.looks now ended in
                    let expired =
                      Expired-later (lap.clock.ended + usage_ttl) now v (omega arith)
                        (Ran-Expired t v snap lap.fetch lap.clock inside old' made) in
                    elim (Option-cases (poll fl v laps)) [
                      | inl n ↦ absurd (ground arith)
                      | inr ((w, rest), more) ↦
                          subst (EachRan from) {x = this ∷ rest} (ground arith) (
                            after,
                            is_run,
                            EachRan-later (lap.clock.started + usage_ttl) now rest (omega arith) (
                                poll-EachRan v w now laps rest expired alone (later now ended)
                                  more),
                          )
                    ]
              ]
        ]
      ]
