-- ===== src/Proxy/Repeats.antt =====
-- src/proxy.rs: after a network error the request is tried on the same key again.
pub mod Reading
pub mod Slots
use ollamux.Base.{
  ℕ, zero, suc, ◌+◌, ◌-◌, ◌≡◌, ◌<◌, ◌^◌, refl, sym, ap, ◌∙◌, subst, Bool, true, false, Option, none,
  some, ◌>>=◌, List, [], ◌∷◌, get_elem?, set, get_elem?-set_self, get_elem?-lt, ltb, leb,
  if◌then◌else◌, Bool-cases, Option-cases, inl, inr, arith, Text, codes, ◌++◌,
}
use ollamux.Pool.{KeyState, Pool, modify, observe, observe_key}
use ollamux.Pool.Select.{all_dead, observe_all, candidates, is_dead}
use ollamux.Pool.Admit.{
  Round, Admission, admitted, rejected, Waited, refused, full, take_slot, free_slot, start_wait,
  try_acquire, release, first_free, enter_wait, wait_loop, acquire_on, outcome, classify_empty,
  admit_among, admit, keys_dead,
}
use ollamux.Pool.Marks.Laws.{modify-frame}
use ollamux.Pool.Interleaving.{enter_wait-eq-some}
use ollamux.Pool.Admit.Admitted.{admit-eq, admit-empty, List-cases, observe_twice}
use ollamux.Pool.Admit.Held.{Fits, slots_of}
use ollamux.Proxy.{
  Upstream, no_answer, retryable, Turn, Outcome, attempt, next_turn, try_turn, unpin_some,
  wait_timeout, max_attempts,
}
use ollamux.Proxy.Repeats.Reading.{observed, admit-observed}
use ollamux.Proxy.Repeats.Slots.{first_free-taken, taken_back, at_once, from_first_free}

-- `key` is given again once its slot is back, at the same clock.
abbrev GivenAgain : Pool → ℕ → ℕ → Type 0
GivenAgain q key now =
    (s : Pool) × (release q key ≡ some s)
    × ((timeout : ℕ) (rounds : List Round) → admit s timeout now rounds ≡ some (q, admitted key))

seen_once :
    (p : Pool) (k : KeyState) (rest : List KeyState) (q : Pool) (key timeout now : ℕ)
    → p.states ≡ k ∷ rest
    → admit p timeout now [] ≡ some (q, admitted key)
    → ((all_dead p.states now).1 ≡ false)
      × (admit_among
            (observed p now)
            (candidates (record p { states = (all_dead p.states now).0 }) now).1
            timeout
            now
            []
          ≡ some (q, admitted key))
seen_once p k rest q key timeout now there e = elim (Bool-cases (all_dead p.states now).1) [
  | inl d ↦ absurd (ground (arith, admit-eq p k rest timeout now [] there))
  | inr d ↦ (d, ground (arith, admit-eq p k rest timeout now [] there))
]

slot_of :
    (p q : Pool) (key : ℕ)
    → try_acquire p key ≡ some (q, true)
    → (ks : KeyState) × (get_elem? p.states key ≡ some ks)
      × (ltb ks.held ks.concurrency ≡ true)
      × (q ≡ record p { states = set p.states key (take_slot ks) })
unfolding try_acquire modify
slot_of p q key e = elim (Option-cases (get_elem? p.states key)) [
  | inl out ↦ absurd (ground arith)
  | inr (ks, found) ↦ elim (Bool-cases (ltb ks.held ks.concurrency)) [
    | inr busy ↦ absurd (ground arith)
    | inl free ↦ (ks, found, free, ground arith)
  ]
]

admit-GivenAgain :
    (p q : Pool) (key timeout now : ℕ)
    → Fits q
    → admit p timeout now [] ≡ some (q, admitted key)
    → GivenAgain q key now
admit-GivenAgain p q key timeout now fits e = elim (List-cases p.states) [
  | inl nothing ↦ absurd (ground (arith, admit-empty p timeout now [] nothing))
  | inr (k, rest, there) ↦
      let (alive, among) = seen_once p k rest q key timeout now there e in
      let o = observed p now in
      let cands = (candidates (record p { states = (all_dead p.states now).0 }) now).1 in
      let given = at_once o q cands key timeout now among in
      let (ks, found, free, is_q) = slot_of o q key (first_free-taken o q cands key given) in
      let small = fits key (take_slot ks).held ks.concurrency (
        ap (λ x. slots_of (get_elem? (Pool.states x) key)) is_q
        ∙ ap slots_of
            (get_elem?-set_self o.states key (take_slot ks) (get_elem?-lt o.states key found))) in
      elim (List-cases o.states) [
        | inl nothing ↦ absurd (ground arith)
        | inr (j, more, there') ↦ (
          o,
          ap (λ x. release x key) is_q ∙ taken_back o key ks found free small,
          λ timeout' rounds.
              admit-observed p j more timeout' now rounds there' alive
              ∙ from_first_free o q cands key timeout' now rounds given,
        )
      ]
]

-- After a network error the request is tried on the same key again: where a key was given without a
-- wait, to a request with no conversation to pin, and meanwhile neither the clock moves on nor another
-- thread changes the pool, a pass of the loop that gets no answer, and is not the last, is followed by
-- a pass on the same key, with the pool as it was. This holds though other keys may be free; a key
-- is taken to have fewer than 2^32 slots.
pub try_turn-repeats :
    (again : ℕ → Pool → Option (Pool × Outcome)) (pinned_before : Bool) (p q : Pool)
    (key retries timeout : ℕ) (t : Turn) (error : Text)
    → Fits q
    → admit p timeout t.now [] ≡ some (q, admitted key)
    → t.upstream ≡ no_answer error
    → ((r : Pool) → t.others r ≡ r)
    → leb max_attempts (retries + 1) ≡ false
    → try_turn again none pinned_before key retries t q ≡ again key q
unfolding try_turn attempt
try_turn-repeats again pinned_before p q key retries timeout t error fits given lost alone more =
    let (s, freed, same) = admit-GivenAgain p q key timeout t.now fits given in
    let tried : attempt (t.others q) key t.upstream t.delivery t.now
        ≡ some (q, retryable (codes "network: " ++ error)) =
      ap (λ u. attempt (t.others q) key u t.delivery t.now) lost
      ∙ ap (λ (r : Pool). some (r, retryable (codes "network: " ++ error))) (alone q) in
    ground (arith, tried, freed, more, same wait_timeout t.rounds)
