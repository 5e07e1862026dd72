-- ===== src/Proxy/Route/Rounds.antt =====
-- src/usage.rs, src/pool.rs: the rounds of fetches and the rows of `/_keys` come to an end.
use ollamux.Base.{
  ℕ, zero, suc, ◌+◌, ◌≤◌, ◌<◌, refl, Bool, Option, List, [], ◌∷◌, length, if-elim, option-elim,
  get_elem?, lt-get_elem?, arith,
}
use ollamux.Snapshot.{Floats, UsageSnapshot}
use ollamux.Pool.{Pool, KeyState, suffix_of}
use ollamux.Pool.Admit.Returns.{Returns}
use ollamux.Pool.Info.{info_from, info}
use ollamux.Usage.Tracker.{
  Fetched, Clock, Tracker, round_rows, do_fetch_inner, wait_or_peek, refresh, fresh_snapshot,
  attempt_cooldown_left,
}
use ollamux.Usage.Tracker
use ollamux.Proxy.Returns.{bind-Returns}

-- Every state is that of a key.
abbrev pub Named : Pool → Type 0
Named p = length p.states ≤ length p.keys

suffix_of-Returns : (p : Pool) (i : ℕ) → i < length p.keys → Returns (suffix_of p i)
unfolding suffix_of
suffix_of-Returns p i inside =
    bind-Returns (get_elem? p.keys i) _ (lt-get_elem? p.keys i inside) (λ k found. (_, refl))

info_from-Returns :
    (p : Pool) (i : ℕ) (states : List KeyState) (now : ℕ)
    → i + length states ≤ length p.keys
    → Returns (info_from p i states now)
unfolding info_from
info_from-Returns p i [] now inside = (_, refl)
info_from-Returns p i (ks ∷ states) now inside =
    bind-Returns (info_from p (suc i) states now) _
      (info_from-Returns p (suc i) states now (omega arith))
      λ rest read.
        bind-Returns (suffix_of p i) _ (suffix_of-Returns p i (omega arith)) (λ s e. (_, refl))

pub info-Returns : (p : Pool) (now : ℕ) → Named p → Returns (info p now)
unfolding info
info-Returns p now named =
    bind-Returns (info_from p 0 p.states now) _ (info_from-Returns p 0 p.states now (omega arith))
      λ r read. (_, refl)

-- What another thread makes of the tracker leaves each state its key.
abbrev pub KeepsNames : {F : Type 0} → (Tracker F → Tracker F) → Type 0
KeepsNames {F} others = (t : Tracker F) → Named t.pool → Named (Tracker.pool (others t))

module _ {F : Type 0} (fl : Floats F) where
  round_rows-Returns :
      (t : Tracker F) (fetch : ℕ → Option (Fetched F)) (c : Clock) (i n : ℕ)
      (backoff : List (Option ℕ))
      → i + n ≤ length (Pool.keys t.pool)
      → Returns (round_rows fl t fetch c i n backoff)
  unfolding round_rows
  round_rows-Returns t fetch c i zero backoff inside = (_, refl)
  round_rows-Returns t fetch c i (suc n) backoff inside =
      bind-Returns (round_rows fl t fetch c (suc i) n _) _
        (round_rows-Returns t fetch c (suc i) n _ (omega arith))
        λ rest ran.
          bind-Returns (suffix_of t.pool i) _ (suffix_of-Returns t.pool i (omega arith))
            (λ s e. (_, refl))

  do_fetch_inner-Returns :
      (t : Tracker F) (fetch : ℕ → Option (Fetched F)) (c : Clock)
      → Named t.pool
      → Returns (do_fetch_inner fl t fetch c)
  unfolding do_fetch_inner
  do_fetch_inner-Returns t fetch c named =
      bind-Returns (round_rows fl t fetch c 0 (length (Pool.states t.pool)) t.backoff_until) _
        (round_rows-Returns t fetch c 0 (length (Pool.states t.pool)) t.backoff_until (omega arith))
        λ r ran. (_, refl)

  wait_or_peek-Returns :
      (t : Tracker F) (fetch : ℕ → Option (Fetched F)) (c : Clock)
      → Named t.pool
      → Returns (wait_or_peek fl t fetch c)
  unfolding wait_or_peek
  wait_or_peek-Returns t fetch c named =
      option-elim (Returns {A = Tracker F × UsageSnapshot F}) t.snapshot _ _
        (λ n. do_fetch_inner-Returns t fetch c named) (λ snap s. (_, refl))

  pub refresh-Returns :
      (t : Tracker F) (fetch : ℕ → Option (Fetched F)) (c : Clock)
      → Named t.pool
      → Returns (refresh fl t fetch c)
  unfolding refresh
  refresh-Returns t fetch c named =
      option-elim (Returns {A = Tracker F × UsageSnapshot F}) (attempt_cooldown_left fl t c.started)
        _ _ (λ n. do_fetch_inner-Returns t fetch c named)
        (λ left s. wait_or_peek-Returns t fetch c named)

  pub get-Returns :
      (t : Tracker F) (contended : Bool) (others : Tracker F → Tracker F)
      (fetch : ℕ → Option (Fetched F)) (c : Clock)
      → Named t.pool
      → KeepsNames others
      → Returns (Tracker.get fl t contended others fetch c)
  unfolding Tracker.get
  get-Returns t contended others fetch c named kept =
      option-elim (Returns {A = Tracker F × UsageSnapshot F}) (fresh_snapshot fl t c.started) _ _
        (λ n.
          if-elim (Returns {A = Tracker F × UsageSnapshot F}) contended _ _
            (λ busy.
              option-elim (Returns {A = Tracker F × UsageSnapshot F}) t.snapshot _ _
                (λ n. wait_or_peek-Returns (others t) fetch c (kept t named)) (λ snap s. (_, refl)))
            (λ free. refresh-Returns t fetch c named))
        (λ snap s. (_, refl))
