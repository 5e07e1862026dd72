-- ===== src/Pool/Admit/Recovery.antt =====
-- src/pool.rs: a pool whose keys all cool or are dead, and how it comes back.
use ollamux.Base.{
  ℕ, ◌+◌, ◌-◌, ◌*◌, ◌≤◌, ◌≡◌, refl, sym, ap, ◌∙◌, subst, Bool, true, false, some, List, [], ◌∷◌,
  all, count, if◌then◌else◌, inl, inr, arith,
}
use ollamux.Pool.{KeyState, Pool, one_second}
use ollamux.Pool.Select.{is_dead, candidates, soonest, next_retry_in}
use ollamux.Pool.Select.Laws.{selectable, candidates_lem}
use ollamux.Pool.Admit.{
  Round, rejected, keys_cooling, keys_dead, retry_secs, classify_empty, admit_among, admit,
}
use ollamux.Pool.Admit.Admitted.{admit-eq, List-cases}
use ollamux.Pool.Select.Cooling.{
  NoneUp, selectable-NoneUp, all_dead-stuck, observe_all-stuck, soonest-found, soonest-exists,
  CoolsUntil-selectable,
}

no_members : (keys : List ℕ) → ((i : ℕ) → count i keys ≡ 0) → keys ≡ []
no_members [] h = refl
no_members (k ∷ keys) h = absurd (ground (arith, h k))

-- The wait in seconds, one more added, covers the time to `t`.
seconds_cover :
    (t now later : ℕ) → now + (retry_secs (some (t - now)) + 1) * one_second ≤ later → t ≤ later
seconds_cover t now later h = omega arith

-- The states stay as they are, and nobody is a candidate.
candidates-stuck :
    (p : Pool) (now : ℕ)
    → NoneUp p.states now
    → ((i : ℕ) → selectable p.states now i ≡ false)
    → ((candidates p now).0.states ≡ p.states) × ((candidates p now).1 ≡ [])
candidates-stuck p now h none_up =
    let (members, sorted, states) = candidates_lem p now in
    (
      states ∙ observe_all-stuck p.states now h,
      no_members (candidates p now).1 (λ i. ground (arith, members i, none_up i)),
    )

next_retry_in-soonest :
    (ss : List KeyState) (now t : ℕ) → soonest ss ≡ some t → next_retry_in ss now ≡ some (t - now)
unfolding next_retry_in
next_retry_in-soonest ss now t e = ground arith

classify_empty-cooling :
    (p : Pool) (now t : ℕ)
    → NoneUp p.states now
    → all (λ ks. is_dead ks.health.state) p.states ≡ false
    → soonest p.states ≡ some t
    → (q : Pool) × (classify_empty p now
        ≡ (q, rejected (keys_cooling (retry_secs (some (t - now))))))
      × (q.states ≡ p.states)
unfolding classify_empty
classify_empty-cooling p now t h alive s =
    rw (all_dead-stuck p.states now h, alive, next_retry_in-soonest p.states now t s)
      (record p { states = p.states }, refl, refl)

admit-admit_among :
    (p : Pool) (ks : KeyState) (rest : List KeyState) (timeout now : ℕ) (rounds : List Round)
    → p.states ≡ ks ∷ rest
    → NoneUp p.states now
    → all (λ ks. is_dead ks.health.state) p.states ≡ false
    → admit p timeout now rounds
      ≡ admit_among (candidates p now).0 (candidates p now).1 timeout now rounds
admit-admit_among p ks rest timeout now rounds there h alive =
    admit-eq p ks rest timeout now rounds there
    ∙ ap
        (λ (c : List KeyState × Bool).
          let seen = record p { states = c.0 } in
          if c.1
          then some (seen, rejected keys_dead)
          else admit_among (candidates seen now).0 (candidates seen now).1 timeout now rounds)
        (all_dead-stuck p.states now h ∙ ap (λ b. (p.states, b)) alive)

-- When no key can be selected and not every key is dead, a request is turned away as cooling down, with some wait in seconds; and if its states stay as that leaves them, some key can
-- be selected from one second after that wait on. (The wait alone is rounded down, so a key may
-- still cool when it is over.)
pub admit-recovers :
    (p : Pool) (timeout now : ℕ) (rounds : List Round)
    → ((i : ℕ) → selectable p.states now i ≡ false)
    → all (λ ks. is_dead ks.health.state) p.states ≡ false
    → (q : Pool) × (wait : ℕ) × (admit p timeout now rounds
        ≡ some (q, rejected (keys_cooling wait)))
      × ((later : ℕ)
          → now + (wait + 1) * one_second ≤ later
          → (i : ℕ) × (selectable q.states later i ≡ true))
unfolding admit_among
admit-recovers p timeout now rounds none_up alive =
    let h = selectable-NoneUp p.states now none_up in
    let (t, first) = soonest-exists p.states now h alive in
    let (i, cools) = soonest-found p.states t first in
    let (stuck, nobody) = candidates-stuck p now h none_up in
    let found = (candidates p now).0 in
    let (q, turned_away, same) =
      classify_empty-cooling found now t (subst (λ ss. NoneUp ss now) (sym stuck) h)
        (ap (λ ss. all (λ ks. is_dead ks.health.state) ss) stuck ∙ alive)
        (ap soonest stuck ∙ first) in
    elim (List-cases p.states) [
      | inl empty ↦ absurd (ground arith)
      | inr (ks, rest, there) ↦ (
        q,
        retry_secs (some (t - now)),
        admit-admit_among p ks rest timeout now rounds there h alive
            ∙ ap (λ keys. admit_among found keys timeout now rounds) nobody
            ∙ ap (λ r. some r) turned_away,
        λ later enough. (
          i,
          subst (λ ss. selectable ss later i ≡ true) (sym (same ∙ stuck))
              (CoolsUntil-selectable p.states i t later cools (seconds_cover t now later enough)),
        ),
      )
    ]
