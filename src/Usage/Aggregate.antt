-- ===== src/Usage/Aggregate.antt =====
-- src/usage.rs: `aggregate`, the capacity-weighted mean of the usage of the keys.
use ollamux.Base.{
  ℕ, Bool, true, false, Option, none, some, ◌>>=◌, List, [], ◌∷◌, get_elem?, if◌then◌else◌, Text,
  text_eq,
}
use ollamux.Snapshot.{Floats, KeyUsage, UsageSnapshot}
use ollamux.Tiers.{Tier, tier_for}
use ollamux.Usage.{round3}

pub record UsageAggregate (F : Type 0) : Type 0 where
  pub session : Option F
  pub weekly : Option F
  pub session_resets_at : Option Text
  pub weekly_resets_at : Option Text

-- The running sum of one window.
pub record Window (F : Type 0) : Type 0 where
  pub sum : F
  pub weight : F
  pub seen : Bool
  pub reset : Option (Option Text)

abbrev pub agree : Option Text → Option Text → Option Text
agree (some a) (some b) = if text_eq a b then some a else none
agree (some a) none = none
agree none next = none

-- `unify_reset`: an instant survives only if the next one is the same.
unfoldable pub unify_reset : Option (Option Text) → Option Text → Option (Option Text)
unify_reset none next = some next
unify_reset (some prev) next = some (agree prev next)

abbrev pub get_or_one : Option ℕ → ℕ
get_or_one none = 1
get_or_one (some n) = n

module _ {F : Type 0} (fl : Floats F) where
  open fl use {of_nat, add, mul, div}

  abbrev pub empty_window : Window F
  empty_window = record { sum = of_nat 0; weight = of_nat 0; seen = false; reset = none }

  unfoldable pub add_to_window : Window F → ℕ → Option F → Option Text → Window F
  unfolding unify_reset
  add_to_window w weight none reset = w
  add_to_window w weight (some v) reset = record {
    sum = add w.sum (mul v (of_nat weight));
    weight = add w.weight (of_nat weight);
    seen = true;
    reset = unify_reset w.reset reset;
  }

  unfoldable pub weight_of : List ℕ → KeyUsage F → ℕ
  unfolding tier_for
  weight_of concurrencies k = Tier.weight (tier_for (get_or_one (get_elem? concurrencies k.index)))

  -- The loop over the rows, for one window: its value and its reset in a row.
  unfoldable pub sum_window :
      (KeyUsage F → Option F)
      → (KeyUsage F → Option Text)
      → List ℕ
      → Window F
      → List (KeyUsage F)
      → Window F
  unfolding add_to_window weight_of
  sum_window value reset concurrencies w [] = w
  sum_window value reset concurrencies w (k ∷ ks) =
      sum_window value reset concurrencies
        (if k.is_ok then add_to_window w (weight_of concurrencies k) (value k) (reset k) else w) ks

  abbrev pub mean : Window F → Option F
  mean w = if w.seen then some (round3 fl (div w.sum w.weight)) else none

  abbrev pub reset_of : Window F → Option Text
  reset_of w = if w.seen then (w.reset >>= λ r. r) else none

  unfoldable pub aggregate : UsageSnapshot F → List ℕ → UsageAggregate F
  unfolding sum_window
  aggregate snap concurrencies =
      let s =
        sum_window KeyUsage.session KeyUsage.session_resets_at concurrencies empty_window
          snap.keys in
      let w =
        sum_window KeyUsage.weekly KeyUsage.weekly_resets_at concurrencies empty_window snap.keys in
      record {
        session = mean s;
        weekly = mean w;
        session_resets_at = reset_of s;
        weekly_resets_at = reset_of w;
      }
