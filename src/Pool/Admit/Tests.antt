-- ===== src/Pool/Admit/Tests.antt =====
-- src/pool.rs: admissions at concrete inputs, and the theorems on them.
use ollamux.Base.{
  ℕ, zero, suc, ◌+◌, ◌*◌, ◌≤◌, ◌≡◌, ◌⊎◌, ◌↔◌, refl, inl, true, false, some, List, [], ◌∷◌, count,
  codes, Text, arith,
}
use ollamux.Base.Sort.{before}
use ollamux.Samples.{one_state, three_keys}
use ollamux.Affinity
use ollamux.Affinity.Entries.{lookup, contains_key, insert}
use ollamux.Pool.{
  KeyState, Pool, pin, new, new_key, modify, observe, observe_key, pinned_key, fresh_health, secs,
  one_second,
}
use ollamux.Pool.Marks.{cool, die}
use ollamux.Pool.Quota.{is_over_quota}
use ollamux.Pool.Interleaving.{System, Reach, here, next, takes, start, Reach-Accounted}
use ollamux.Pool.Select.{candidates, next_retry_in}
use ollamux.Pool.Select.Laws.{selectable}
use ollamux.Pool.Admit.{
  Round, Waited, refused, full, admitted, queue_full, queued_too_long, take_slot, try_acquire,
  acquire_on, admit, admit_affine, pin_usable, rejected, keys_cooling,
}
use ollamux.Pool.Admit.Recovery.{admit-recovers}
use ollamux.Pool.Admit.Pinned.{pin_usable-admit_affine}
use ollamux.Pool.Admit.Slots.{waiters_of, acquire_on_total}
use ollamux.Pool.Admit.Admitted.{admit-rejected_by_load}

-- The first key of `three_keys` is in use.
abbrev first_taken : Pool
first_taken = record three_keys { states = take_slot one_state ∷ one_state ∷ one_state ∷ [] }

first_taken-candidates : (candidates first_taken 0).1 ≡ 2 ∷ 1 ∷ 0 ∷ []
unfolding candidates before observe
first_taken-candidates = refl

-- One key with one slot in use, and no room in the queue.
abbrev crowded : Pool
crowded = record three_keys { states = record one_state { held = 1; waiter_cap = 0 } ∷ []; rr = 0 }

admit-rejected_by_load_example : (queue_full ≡ queue_full) ⊎ (queue_full ≡ queued_too_long)
unfolding admit before observe try_acquire modify
admit-rejected_by_load_example =
    admit-rejected_by_load crowded crowded 30 0 [] queue_full 0 refl refl

abbrev late : Round
late = record { now = 100; others = λ p. p }

acquire_on_total_example :
    (q : Pool) × (result : Waited) × (acquire_on first_taken 0 30 0 (late ∷ []) ≡ some (q, result))
    × (waiters_of q 0 ≡ some 0)
    × ((result ≡ refused full) ↔ (2 ≤ 0))
acquire_on_total_example =
    acquire_on_total first_taken 0 30 0 (late ∷ []) (take_slot one_state) refl (ground arith)
      ((λ p. refl), tt) (inl (ground arith))

abbrev entries : List (Text × ℕ)
entries = (codes "key-aaaa", 2) ∷ (codes "key-bbbb", 1) ∷ []

abbrev two_keys : Pool
two_keys = new entries 2 false

abbrev one_permit : System
one_permit = record {
  pool = record two_keys {
    states = take_slot (record one_state { concurrency = 2 }) ∷ one_state ∷ [];
  };
  permits = 0 ∷ [];
  waiting = [];
}

one_permit-Reach : Reach (start entries 2 false) one_permit
unfolding new new_key try_acquire modify
one_permit-Reach = next here (takes 0 one_permit.pool refl refl)

abbrev first_key : KeyState
first_key = take_slot (record one_state { concurrency = 2 })

Reach-Accounted_example :
    (first_key.held ≡ count 0 one_permit.permits)
    × (count 0 one_permit.permits ≤ first_key.concurrency)
    × (first_key.waiters ≡ count 0 one_permit.waiting)
    × (count 0 one_permit.waiting ≤ first_key.waiter_cap)
Reach-Accounted_example =
    Reach-Accounted entries 2 false one_permit (ground arith, (ground arith, tt)) (ground arith)
      one_permit-Reach 0 first_key refl

-- Two keys cool, one of them for 1.9 s more, and the third is dead.
abbrev cooling_for : ℕ → KeyState
cooling_for until = record one_state { health = cool 0 until (codes "429: slow") fresh_health }

abbrev cooling_keys : Pool
cooling_keys = record three_keys {
  states =
      cooling_for (secs 90)
      ∷ cooling_for (secs 11 + 900_000_000)
      ∷ record one_state { health = die (codes "401") fresh_health }
      ∷ [];
}

cooling_keys-down : (i : ℕ) → selectable cooling_keys.states (secs 10) i ≡ false
unfolding observe cool die
cooling_keys-down zero = refl
cooling_keys-down (suc zero) = refl
cooling_keys-down (suc (suc zero)) = refl
cooling_keys-down (suc (suc (suc i))) = refl

-- The wait that is told is a second, and then the key cools still.
told_too_soon :
    (admit cooling_keys (secs 30) (secs 10) [] ≡ some (cooling_keys, rejected (keys_cooling 1)))
    × (selectable cooling_keys.states (secs 11) 1 ≡ false)
unfolding observe cool die admit before next_retry_in
told_too_soon = (refl, refl)

admit-recovers_example :
    (q : Pool) × (wait : ℕ) × (admit cooling_keys (secs 30) (secs 10) []
      ≡ some (q, rejected (keys_cooling wait)))
    × ((later : ℕ)
        → secs 10 + (wait + 1) * one_second ≤ later
        → (i : ℕ) × (selectable q.states later i ≡ true))
unfolding die cool
admit-recovers_example = admit-recovers cooling_keys (secs 30) (secs 10) [] cooling_keys-down refl

-- Conversation 7 is pinned to the first key.
abbrev pinned_first : Pool
pinned_first = pin three_keys 7 0

pin_usable-admit_affine_example :
    (key : ℕ) × (r : Pool) × ((pinned_key pinned_first 7).1 ≡ some key)
    × (admit_affine (pinned_key pinned_first 7).0 (secs 30) (some 7) 0 [] ≡ some (r, admitted key))
unfolding pin pin_usable pinned_key observe Affinity.put Affinity.get modify lookup contains_key
    insert observe_key is_over_quota
pin_usable-admit_affine_example =
    pin_usable-admit_affine pinned_first (pinned_key pinned_first 7).0 7 (secs 30) 0 [] refl
