-- ===== src/Pool/Tests.antt =====
-- src/pool.rs: runs of the pool, and the theorems on health, routing and quota at concrete inputs.
use ollamux.Base.{ℕ, ◌≡◌, ◌&&◌, refl, true, not, List, [], ◌∷◌, any, ltb, ◌==◌, arith}
use ollamux.Base.Sort.{before}
use ollamux.Samples.{reason, one_state, three_keys, whole_floats, usage_of_second}
use ollamux.Pool.{up, Pool, fresh_health, secs, modify, observe}
use ollamux.Pool.Marks.{die, cool, confirm, settle}
use ollamux.Pool.Marks.Laws.{
  IsValid, Mark, dies, cools, strikes, settles, observed, apply_all, apply_all-IsValid,
  dead_key_revives,
}
use ollamux.Pool.Quota.{is_over_quota, publish_usage}
use ollamux.Pool.Quota.Laws.{reports, is_over_quota-publish_usage}
use ollamux.Pool.Select.{candidates}
use ollamux.Pool.Select.Rotation.{Idle, rotation_has_period_two}

abbrev marks : List Mark
marks =
    strikes 0 reason
    ∷ cools 1 (secs 60) reason
    ∷ observed (secs 90)
    ∷ settles true
    ∷ dies reason
    ∷ []

fresh-IsValid : IsValid fresh_health
fresh-IsValid = record { timed = refl; struck = ground arith }

apply_all-IsValid_example : IsValid (apply_all marks fresh_health)
apply_all-IsValid_example = apply_all-IsValid marks fresh_health fresh-IsValid

dead_key_revives_example :
    ((observe (cool 0 (secs 60) reason (die reason fresh_health)) (secs 61)).state ≡ up)
    × ((observe (confirm true (die reason fresh_health)) (secs 61)).state ≡ up)
dead_key_revives_example =
    dead_key_revives fresh_health 0 (secs 60) (secs 61) reason reason (ground arith)

three_keys-Idle : Idle three_keys
three_keys-Idle = record {
  idle = ((refl, refl), ((refl, refl), ((refl, refl), tt)));
  fresh = refl;
  last_in_range = ground arith;
  few = ground arith;
}

abbrev settled_third : Pool
settled_third = record three_keys {
  states =
      one_state
      ∷ one_state
      ∷ record one_state { health = record fresh_health { successes = 1 } }
      ∷ [];
  rr = 2;
}

rotation_has_period_two_example :
    (rest after : List ℕ) × ((candidates three_keys 0).1 ≡ 2 ∷ rest)
    × ((candidates settled_third 9).1 ≡ 1 ∷ after)
    × Idle settled_third
unfolding settle modify confirm
rotation_has_period_two_example =
    rotation_has_period_two three_keys settled_third 0 9 three_keys-Idle refl

-- The first key is busy, the second is over quota, the third cools.
abbrev mixed : Pool
mixed = record three_keys {
  states =
      record one_state { concurrency = 2; held = 1 }
      ∷ one_state
      ∷ record one_state { health = cool 0 (secs 60) reason fresh_health }
      ∷ [];
  over_quota_mask = 2;
}

mixed-candidates : (candidates mixed 5).1 ≡ 0 ∷ 1 ∷ []
unfolding candidates cool before
mixed-candidates = refl

published : is_over_quota (publish_usage whole_floats three_keys usage_of_second) 1 ≡ true
unfolding is_over_quota publish_usage
published = refl

is_over_quota-publish_usage_example :
    is_over_quota (publish_usage whole_floats three_keys usage_of_second) 1
    ≡ (not (800 == 0) && ltb 1 64 && any (reports whole_floats 800 1) usage_of_second.keys)
is_over_quota-publish_usage_example =
    is_over_quota-publish_usage whole_floats three_keys usage_of_second 1
