-- ===== src/Usage/Backoff.antt =====
-- src/usage.rs: the backoff of a rate-limited key.
use ollamux.Base.{
  ℕ, zero, suc, ◌+◌, ◌≤◌, ◌<◌, ◌≡◌, ◌≢◌, refl, sym, ◌∙◌, ap, Option, none, some, List, length,
  length-set, get_elem?, get_elem?-set_self, get_elem?-set_ne, ltb, leb, Bool-cases, Option-cases,
  inl, inr, arith,
}
use ollamux.Snapshot.{Floats, UsageSnapshot}
use ollamux.Pool.{suffix_of, secs}
use ollamux.Usage.{clamp_backoff}
use ollamux.Usage.Tracker.{
  rate_limited, Fetched, failed, Clock, Tracker, eligible_at, backoff_of, set_backoff, RoundResult,
  answer, round_rows, conclude, do_fetch_inner,
}
use ollamux.Usage.Laws.{conclude-frame, Ran-rows}

module _ {F : Type 0} (fl : Floats F) where
  round_rows-step :
      (t : Tracker F) (fetch : ℕ → Option (Fetched F)) (c : Clock) (i n : ℕ)
      (backoff : List (Option ℕ)) (r : RoundResult fl)
      → round_rows fl t fetch c i (suc n) backoff ≡ some r
      → (rest : RoundResult fl) × (round_rows fl t fetch c (suc i) n (
            set_backoff fl i c.ended
              (backoff_of fl t.default_backoff (answer fl fetch t.backoff_until c i))
              backoff)
          ≡ some rest)
        × (r.backoff ≡ rest.backoff)
  unfolding round_rows
  round_rows-step t fetch c i n backoff r e =
      let backoff' =
        set_backoff fl i c.ended
          (backoff_of fl t.default_backoff (answer fl fetch t.backoff_until c i)) backoff in
      elim (Option-cases (round_rows fl t fetch c (suc i) n backoff')) [
        | inl out ↦ absurd (ground arith)
        | inr (rest, some_rest) ↦ elim (Option-cases (suffix_of t.pool i)) [
          | inl out ↦ absurd (ground arith)
          | inr (s, some_s) ↦ (rest, some_rest, ground arith)
        ]
      ]

  set_backoff-ne :
      (i j now : ℕ) (d : Option ℕ) (backoff : List (Option ℕ))
      → i ≢ j
      → get_elem? (set_backoff fl i now d backoff) j ≡ get_elem? backoff j
  set_backoff-ne i j now none backoff ne = refl
  set_backoff-ne i j now (some d) backoff ne = get_elem?-set_ne backoff i j (some (now + d)) ne

  length-set_backoff :
      (i now : ℕ) (d : Option ℕ) (backoff : List (Option ℕ))
      → length (set_backoff fl i now d backoff) ≡ length backoff
  length-set_backoff i now none backoff = refl
  length-set_backoff i now (some d) backoff = length-set backoff i (some (now + d))

  round_rows-earlier :
      (t : Tracker F) (fetch : ℕ → Option (Fetched F)) (c : Clock) (i n : ℕ)
      (backoff : List (Option ℕ)) (r : RoundResult fl) (j : ℕ)
      → round_rows fl t fetch c i n backoff ≡ some r
      → j < i
      → get_elem? r.backoff j ≡ get_elem? backoff j
  unfolding round_rows
  round_rows-earlier t fetch c i zero backoff r j e h = ground arith
  round_rows-earlier t fetch c i (suc n) backoff r j e h =
      let (rest, some_rest, same) = round_rows-step t fetch c i n backoff r e in
      let ended = backoff_of fl t.default_backoff (answer fl fetch t.backoff_until c i) in
      ap (λ b. get_elem? b j) same
      ∙ round_rows-earlier t fetch c (suc i) n (set_backoff fl i c.ended ended backoff) rest j
          some_rest (omega arith)
      ∙ set_backoff-ne i j c.ended ended backoff (λ e. omega arith)

  -- The backoff of a key after the loop, if its answer sets one.
  round_rows-backoff :
      (t : Tracker F) (fetch : ℕ → Option (Fetched F)) (c : Clock) (i n : ℕ)
      (backoff : List (Option ℕ)) (r : RoundResult fl) (j d : ℕ)
      → round_rows fl t fetch c i n backoff ≡ some r
      → i ≤ j
      → j < i + n
      → j < length backoff
      → backoff_of fl t.default_backoff (answer fl fetch t.backoff_until c j) ≡ some d
      → get_elem? r.backoff j ≡ some (some (c.ended + d))
  round_rows-backoff t fetch c i zero backoff r j d e low high inside b = absurd (omega arith)
  round_rows-backoff t fetch c i (suc n) backoff r j d e low high inside b =
      let (rest, some_rest, same) = round_rows-step t fetch c i n backoff r e in
      let set_here =
        λ (k : ℕ). backoff_of fl t.default_backoff (answer fl fetch t.backoff_until c k) in
      let backoff' = set_backoff fl i c.ended (set_here i) backoff in
      ap (λ b. get_elem? b j) same ∙ elim (Bool-cases (ltb i j)) [
        | inl later ↦
            round_rows-backoff t fetch c (suc i) n backoff' rest j d some_rest (ground arith)
              (omega arith) (rw (length-set_backoff i c.ended (set_here i) backoff) inside) b
        | inr here ↦
            let same_key : i ≡ j = ground arith in
            round_rows-earlier t fetch c (suc i) n backoff' rest j some_rest (omega arith)
            ∙ ap (λ k. get_elem? (set_backoff fl k c.ended (set_here k) backoff) j) same_key
            ∙ ap (λ o. get_elem? (set_backoff fl j c.ended o backoff) j) b
            ∙ get_elem?-set_self backoff j (some (c.ended + d)) inside
      ]

  clamped : (ra : Option ℕ) (default : ℕ) → clamp_backoff ra default ≤ secs 300
  unfolding clamp_backoff
  clamped none default = ground arith
  clamped (some d) default = ground arith

  eligible-set :
      (backoff : List (Option ℕ)) (now i until : ℕ)
      → get_elem? backoff i ≡ some (some until)
      → eligible_at backoff now i ≡ leb until now
  unfolding eligible_at
  eligible-set backoff now i until e = ground arith

  -- A key of the pool that was fetched in a round and was rate-limited sits out until its own
  -- `Retry-After`, or the default, has passed since the end of the round, and no longer: it may be
  -- fetched again from then on. What is waited is at most five minutes, whatever the upstream asks
  -- for.
  pub rate_limited_backs_off :
      (t t' : Tracker F) (snap : UsageSnapshot F) (fetch : ℕ → Option (Fetched F)) (c : Clock)
      (i now : ℕ) (ra : Option ℕ)
      → do_fetch_inner fl t fetch c ≡ some (t', snap)
      → i < length t.pool.states
      → i < length t.backoff_until
      → answer fl fetch t.backoff_until c i ≡ some (failed (rate_limited ra))
      → (eligible_at t'.backoff_until now i
          ≡ leb (c.ended + clamp_backoff ra t.default_backoff) now)
        × (clamp_backoff ra t.default_backoff ≤ secs 300)
  unfolding ollamux.Usage.Tracker.normalise
  rate_limited_backs_off t t' snap fetch c i now ra e inside known answered =
      let (r, ran, made) = Ran-rows fl t t' snap fetch c e in
      let (kept, attempted, refresh_kept, backoff_kept) =
        conclude-frame fl (record t { last_attempt = some c.ended; backoff_until = r.backoff }) c
          r in
      let same_backoff : t'.backoff_until ≡ r.backoff =
        sym (ap (λ x. x.0.backoff_until) made) ∙ backoff_kept in
      let entry =
        round_rows-backoff t fetch c 0 (length t.pool.states) t.backoff_until r i
          (clamp_backoff ra t.default_backoff) ran (omega arith) (omega arith) known
          (ap (backoff_of fl t.default_backoff) answered) in
      (
        eligible-set t'.backoff_until now i _ (ap (λ b. get_elem? b i) same_backoff ∙ entry),
        clamped ra t.default_backoff,
      )
