-- ===== src/Samples.antt =====
-- Sample data for the tests: a pool of three keys of one slot each, a snapshot in which the second
-- key is used up, and whole numbers in place of floats.
use ollamux.Base.{
  ℕ, ◌+◌, ◌-◌, ◌*◌, ◌/◌, min, max, true, false, none, some, List, [], ◌∷◌, Text, codes,
}
use ollamux.Snapshot.{Floats, KeyUsage, UsageSnapshot}
use ollamux.Pool.{KeyState, Pool, fresh_health}

abbrev pub reason : Text
reason = codes "upstream 500"

abbrev pub one_state : KeyState
one_state = record { concurrency = 1; held = 0; waiters = 0; waiter_cap = 2; health = fresh_health }

abbrev pub three_states : List KeyState
three_states = one_state ∷ one_state ∷ one_state ∷ []

-- Three keys, the last success on the second.
abbrev pub three_keys : Pool
three_keys = record {
  keys = codes "key-aaaa" ∷ codes "key-bbbb" ∷ codes "key-cccc" ∷ [];
  states = three_states;
  rr = 1;
  verbose = false;
  usage_threshold_x10 = 800;
  over_quota_mask = 0;
  affinity_enabled = true;
  affinity = record { entries = []; lru = []; cap = 4 };
}

-- Whole numbers in place of floats, for runs: a session of 1 is a usage of 100 %.
abbrev pub whole_floats : Floats ℕ
whole_floats = record {
  of_nat = λ n. n;
  add = ◌+◌;
  sub = λ a b. a - b;
  mul = ◌*◌;
  div = λ a b. a / b;
  clamp = λ x low high. min (max x low) high;
  round = λ x. x;
  trunc = λ x. x;
  is_finite = λ x. true;
}

abbrev pub used_up : ℕ → KeyUsage ℕ
used_up i = record {
  index = i;
  suffix = [];
  is_ok = true;
  status = some 200;
  session = some 1;
  weekly = none;
  session_pct = none;
  weekly_pct = none;
  session_resets_at = none;
  weekly_resets_at = none;
  included_usd = none;
  allowance_usd = none;
  purchased_usd = none;
  as_of = none;
  error = none;
}

abbrev pub usage_of_second : UsageSnapshot ℕ
usage_of_second = record { fetched_at = 0; keys = used_up 1 ∷ used_up 70 ∷ [] }
