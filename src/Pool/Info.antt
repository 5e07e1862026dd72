-- ===== src/Pool/Info.antt =====
-- src/pool.rs: `info` and `info_with_usage`, the rows of `/_keys`.
use ollamux.Base.{
  ℕ, suc, ◌+◌, ◌-◌, Option, none, some, ◌>>=◌, List, [], ◌∷◌, get_elem?, Text, String,
}
use ollamux.Snapshot.{Floats, UsageSnapshot}
use ollamux.Tiers.{tier_for}
use ollamux.Pool.{KeyState, Pool, State, up, cooldown, dead, observe_key, as_secs, suffix_of}
use ollamux.Pool.Quota.{UsageBrief, usage_briefs}

pub record KeyInfo : Type 0 where
  pub index : ℕ
  pub suffix : Text
  pub state : State
  pub concurrency : ℕ
  pub tier : String
  pub in_use : ℕ
  pub waiters : ℕ
  pub cooldown_left_s : Option ℕ
  pub strikes : ℕ
  pub fails : ℕ
  pub successes : ℕ
  pub last_error : Option Text

abbrev pub seconds_left : State → Option ℕ → ℕ → Option ℕ
seconds_left cooldown (some t) now = some (as_secs (t - now) + 1)
seconds_left cooldown none now = none
seconds_left up until now = none
seconds_left dead until now = none

unfoldable pub info_of : KeyState → ℕ → Text → ℕ → KeyInfo
unfolding tier_for
info_of ks i suffix now = record {
  index = i;
  suffix = suffix;
  state = ks.health.state;
  concurrency = ks.concurrency;
  tier = (tier_for ks.concurrency).name;
  in_use = ks.held;
  waiters = ks.waiters;
  cooldown_left_s = seconds_left ks.health.state ks.health.cooldown_until now;
  strikes = ks.health.strikes;
  fails = ks.health.fails;
  successes = ks.health.successes;
  last_error = ks.health.last_error;
}

-- The rows from index `i` on, and the states that reading them leaves.
unfoldable pub info_from : Pool → ℕ → List KeyState → ℕ → Option (List KeyState × List KeyInfo)
unfolding info_of observe_key suffix_of
info_from p i [] now = some ([], [])
info_from p i (ks ∷ rest) now =
    let seen = observe_key ks now in
    info_from p (suc i) rest now >>= λ (states, rows).
    suffix_of p i >>= λ sfx. some (seen ∷ states, info_of seen i sfx now ∷ rows)

unfoldable pub info : Pool → ℕ → Option (Pool × List KeyInfo)
unfolding info_from
info p now =
    info_from p 0 p.states now >>= λ (states, rows). some (record p { states = states }, rows)

abbrev pub flatten {ℓ} : {A : Type ℓ} → Option (Option A) → Option A
flatten none = none
flatten (some o) = o

module _ {F : Type 0} (fl : Floats F) where
  -- The briefs are joined by index: a short snapshot cuts no row.
  unfoldable pub join_from :
      ℕ → List KeyInfo → List (Option (UsageBrief F)) → List (KeyInfo × Option (UsageBrief F))
  join_from i [] briefs = []
  join_from i (row ∷ rows) briefs =
      (row, flatten (get_elem? briefs i)) ∷ join_from (suc i) rows briefs

  unfoldable pub info_with_usage :
      Pool → UsageSnapshot F → ℕ → Option (Pool × List (KeyInfo × Option (UsageBrief F)))
  unfolding info join_from
  info_with_usage p snap now =
      info p now >>= λ (q, rows). some (q, join_from 0 rows (usage_briefs fl p snap))
