-- ===== src/Proxy/Route/Tests.antt =====
-- src/proxy.rs: requests to the endpoints at concrete inputs, and the theorems on them.
use ollamux.Base.{
  ◌≡◌, refl, ap, ◌>>=◌, true, false, some, none, inl, inr, [], ◌∷◌, arith, codes, text_eq,
  starts_with, split, split_once, strip_start, ℕ,
}
use ollamux.Samples.{three_keys, whole_floats, usage_of_second}
use ollamux.Pool.{secs}
use ollamux.Pool.Admit.Held.{SameSlots}
use ollamux.Usage.Tracker.{Tracker, fresh_snapshot, new_tracker}
use ollamux.Affinity.Entries.{lookup}
use ollamux.Affinity.Identity.{is_affine_path}
use ollamux.Proxy.{broken, whole, proxy}
use ollamux.Proxy.Tests.{
  late, patient, patient-Ending, turns, served, outcome, served-run, three_keys-Fits,
}
use ollamux.Proxy.Route.{
  Reply, Events, with_pool, proxied, route, handle, forces, usage, usage_report,
}
use ollamux.Proxy.Answered.{PinsInRange}
use ollamux.Proxy.Route.Answered.{Granted, handle-Answered}
use ollamux.Proxy.Route.Fetches.{NoFetch, route-NoFetch}

abbrev pub tracker : Tracker ℕ
tracker = record (new_tracker three_keys) { snapshot = some usage_of_second }

abbrev events : Events ℕ
events = record {
  clock = record { started = secs 30; ended = secs 31; unix = 1_000_000 };
  contended = false;
  others = λ t. t;
  fetch = λ i. none;
  rounds = [];
  turns = [];
}

forced : forces (some (codes "verbose&refresh=1")) ≡ true
unfolding forces codes text_eq split split_once
forced = refl

not_forced : forces (some (codes "refresh=false")) ≡ false
unfolding forces codes text_eq split split_once
not_forced = refl

-- A chat request that takes a slot of the third key, is limited there, and gets its answer on a slot
-- of the first one.
abbrev pub chat_events : Events ℕ
chat_events = record events {
  clock = record { started = 0; ended = secs 1; unix = 1_000_000 };
  turns = turns;
}

abbrev pub after_chat : Tracker ℕ
after_chat = record tracker { pool = served }

pub chat-handled :
    handle whole_floats
      (λ bytes. none)
      (λ v. none)
      tracker
      (whole [])
      (codes "/api/chat")
      chat_events
    ≡ some (after_chat, proxied outcome)
unfolding handle codes text_eq starts_with split_once strip_start proxy is_affine_path new_tracker
chat-handled =
    ap (λ o. o >>= λ (p, out). some (with_pool whole_floats tracker p, proxied out)) served-run

-- Three rate limits in turn, with a wait that ends after each.
abbrev patient_events : Events ℕ
patient_events = record chat_events { rounds = late ∷ []; turns = patient ∷ patient ∷ patient ∷ [] }

three_keys-PinsInRange : PinsInRange three_keys
unfolding lookup
three_keys-PinsInRange id key e = absurd cc

patient_events-Granted : Granted whole_floats patient_events
patient_events-Granted = record {
  others_steady = λ t i. refl;
  others_named = λ t named. named;
  rounds_steady = (λ p i. refl, tt);
  rounds_end = inl (ground arith);
  turns_end = (patient-Ending, (patient-Ending, (patient-Ending, tt)));
  enough = omega arith;
}

handle-Answered_example :
    (u : Tracker ℕ) × (r : Reply ℕ) × (handle whole_floats
        (λ bytes. none)
        (λ v. none)
        tracker
        (whole [])
        (codes "/api/chat")
        patient_events
      ≡ some (u, r))
    × SameSlots three_keys u.pool
unfolding new_tracker
handle-Answered_example =
    handle-Answered whole_floats (λ bytes. none) (λ v. none) tracker (whole []) (codes "/api/chat")
      patient_events three_keys-Fits three_keys-PinsInRange (omega arith) patient_events-Granted

route-NoFetch_example : NoFetch whole_floats tracker tracker
unfolding route codes text_eq starts_with split split_once strip_start new_tracker forces
    fresh_snapshot
route-NoFetch_example =
    route-NoFetch whole_floats (λ bytes. none) (λ v. none) tracker tracker broken (codes "/_usage")
      (some (codes "refresh=0")) events
      (usage (usage_report whole_floats usage_of_second events.clock three_keys))
      (inr (refl, usage_of_second, refl)) refl
