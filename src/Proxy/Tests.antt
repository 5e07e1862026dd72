-- ===== src/Proxy/Tests.antt =====
-- src/proxy.rs: requests at concrete inputs, and the theorems on them.
use ollamux.Affinity.Identity.{is_affine_path}
use ollamux.Base.{
  ℕ, map, Option, ◌==◌, if◌then◌else◌, inl, Text, text_eq, zero, suc, ◌≡◌, refl, false, none, some,
  List, [], ◌∷◌, ◌++◌, codes, arith,
}
use ollamux.Base.Sort.{before}
use ollamux.Samples.{one_state, three_keys}
use ollamux.Pool.{Pool, State, up, cooldown, fresh_health, secs, modify, observe}
use ollamux.Pool.Marks.{strike, add_strike, mark_strike, cool, confirm, mark_cooldown, settle}
use ollamux.Pool.Admit.{Round, try_acquire, admit, admit_affine, release}
use ollamux.Pool.Admit.Held.{Fits, SameSlots}
use ollamux.Proxy.{
  whole, no_answer, plain, cooldown_of, try_turn, proxy, success, error_status, delivered, Outcome,
  off, Turn, attempts, proxy_keyed, is_unauthorized, affinity_header_value,
}
use ollamux.Proxy.Returns.{Ending}
use ollamux.Proxy.Failover.{Failover, proxy_keyed-Failover}
use ollamux.Proxy.Repeats.{try_turn-repeats}
use ollamux.Proxy.Rotation.{try_turn-rotates}
use ollamux.Proxy.Balance.{proxy-SameSlots}

abbrev pub limited : Turn
limited = record {
  upstream = error_status 429 none (codes "slow");
  delivery = delivered;
  now = 0;
  others = λ p. p;
  rounds = [];
}

abbrev pub answered : Turn
answered = record limited { upstream = success 200 }

abbrev pub turns : List Turn
turns = limited ∷ answered ∷ []

-- The third key is limited; the first one answers.
abbrev pub served : Pool
served = record three_keys {
  states =
      record one_state { health = record fresh_health { successes = 1 } }
      ∷ one_state
      ∷ record one_state { health = cool 0 (secs 60) (codes "429: " ++ codes "slow") fresh_health }
      ∷ [];
  rr = 0;
}

abbrev pub outcome : Outcome
outcome = record { status = 200; retries = 1; key = some 0; affinity = some off }

pub served-run : proxy_keyed three_keys none false 0 [] turns ≡ some (served, outcome)
unfolding proxy_keyed admit admit_affine before observe try_acquire modify release mark_cooldown
    settle cool confirm is_unauthorized affinity_header_value
served-run = refl

pub three_keys-Fits : Fits three_keys
three_keys-Fits zero held slots e = ground arith
three_keys-Fits (suc zero) held slots e = ground arith
three_keys-Fits (suc (suc zero)) held slots e = ground arith
three_keys-Fits (suc (suc (suc i))) held slots e = absurd (ground arith)

abbrev chat : Text
chat = codes "api/chat"

proxy-SameSlots_example : SameSlots three_keys served
unfolding proxy codes text_eq is_affine_path
proxy-SameSlots_example =
    proxy-SameSlots (λ bytes. none) (λ v. none) three_keys served (whole []) chat 0 [] turns outcome
      three_keys-Fits tt ((λ p i. refl, tt), ((λ p i. refl, tt), tt)) served-run

abbrev pub late : Round
late = record { now = secs 31; others = λ p. p }

abbrev pub patient : Turn
patient = record limited { rounds = late ∷ [] }

pub patient-Ending : Ending patient
patient-Ending = ((λ p i. refl, (λ p i. refl, tt)), inl (ground arith))

-- Three rate limits one after the other.
proxy_keyed-Failover_example :
    (q : Pool) × (out : Outcome) × (proxy_keyed three_keys none false 0
        (late ∷ [])
        (patient ∷ patient ∷ patient ∷ [])
      ≡ some (q, out))
    × Failover (patient ∷ patient ∷ patient ∷ []) out
proxy_keyed-Failover_example =
    proxy_keyed-Failover three_keys none false 0 (late ∷ []) (patient ∷ patient ∷ patient ∷ [])
      three_keys-Fits tt (λ p i. refl, tt) (inl (ground arith))
      (patient-Ending, (patient-Ending, (patient-Ending, tt))) (ground arith)

-- A next pass that does nothing, and one that would try the first key again.
abbrev gives_up : ℕ → Pool → Option (Pool × Outcome)
gives_up key p = some (p, plain 502)

abbrev insists : ℕ → Pool → Option (Pool × Outcome)
insists key p = if key == 0 then attempts none false 0 1 (answered ∷ []) p else some (p, plain 502)

try_turn-rotates_example :
    try_turn gives_up none false 0 0 limited three_keys
    ≡ try_turn insists none false 0 0 limited three_keys
unfolding is_unauthorized cooldown_of
try_turn-rotates_example =
    try_turn-rotates gives_up insists none false 0 0 limited three_keys refl
      (λ k q ne. ground arith)

-- The third key is given, and nothing answers.
abbrev given : Pool
given = record three_keys { states = one_state ∷ one_state ∷ record one_state { held = 1 } ∷ [] }

abbrev lost : Turn
lost = record limited { upstream = no_answer (codes "refused") }

given-Fits : Fits given
given-Fits zero held slots e = ground arith
given-Fits (suc zero) held slots e = ground arith
given-Fits (suc (suc zero)) held slots e = ground arith
given-Fits (suc (suc (suc i))) held slots e = absurd (ground arith)

try_turn-repeats_example : try_turn gives_up none false 2 0 lost given ≡ gives_up 2 given
unfolding admit before observe try_acquire
try_turn-repeats_example =
    try_turn-repeats gives_up false three_keys given 2 0 0 lost (codes "refused") given-Fits refl
      refl (λ r. refl) refl

abbrev faulty : Turn
faulty = record limited { upstream = error_status 500 none (codes "oops") }

abbrev states_after : Option (Pool × Outcome) → List State
states_after none = []
states_after (some (p, out)) = map (λ ks. ks.health.state) p.states

-- Three server errors of one request all fall on the third key, which then cools; the others, which
-- were free, are not tried.
three_server_errors :
    states_after (attempts none false 2 0 (faulty ∷ faulty ∷ faulty ∷ []) given)
    ≡ up ∷ up ∷ cooldown ∷ []
unfolding attempts admit before observe try_acquire modify release mark_strike strike add_strike
    cool is_unauthorized
three_server_errors = refl
