-- ===== src/Pool/Select/Cooling.antt =====
-- src/pool.rs: keys none of which can be selected: what reading their states leaves, and when the
-- first of their cooldowns ends.
use ollamux.Base.{
  ℕ, zero, suc, ◌≤◌, ◌≡◌, refl, true, false, some, List, [], ◌∷◌, all, min, ltb, Bool-cases,
  Option-cases, inl, inr, get_elem?, arith,
}
use ollamux.Pool.{Health, KeyState, cooldown, observe, observe_key}
use ollamux.Pool.Select.{is_up, is_dead, all_dead, observe_all, cooling_until, soonest}
use ollamux.Pool.Select.Laws.{selectable}

abbrev pub NoneUp : List KeyState → ℕ → Type 0
NoneUp [] now = Unit {0}
NoneUp (ks ∷ ss) now = (is_up (observe ks.health now).state ≡ false) × NoneUp ss now

pub selectable-NoneUp :
    (ss : List KeyState) (now : ℕ) → ((i : ℕ) → selectable ss now i ≡ false) → NoneUp ss now
selectable-NoneUp [] now h = tt
selectable-NoneUp (ks ∷ ss) now h = (h 0, selectable-NoneUp ss now (λ i. h (suc i)))

-- Reading changes a state only to up.
observe-stuck : (h : Health) (now : ℕ) → is_up (observe h now).state ≡ false → observe h now ≡ h
unfolding observe
observe-stuck h now e = ground arith

pub all_dead-stuck :
    (ss : List KeyState) (now : ℕ)
    → NoneUp ss now
    → all_dead ss now ≡ (ss, all (λ ks. is_dead ks.health.state) ss)
unfolding all_dead observe_key
all_dead-stuck [] now h = refl
all_dead-stuck (ks ∷ ss) now h =
    ground (arith, observe-stuck ks.health now h.0, all_dead-stuck ss now h.1)

pub observe_all-stuck : (ss : List KeyState) (now : ℕ) → NoneUp ss now → observe_all ss now ≡ ss
unfolding observe_all observe_key
observe_all-stuck [] now h = refl
observe_all-stuck (ks ∷ ss) now h =
    ground (arith, observe-stuck ks.health now h.0, observe_all-stuck ss now h.1)

-- The key at `i` cools until `t`.
abbrev pub CoolsUntil : List KeyState → ℕ → ℕ → Type 0
CoolsUntil ss i t =
    (ks : KeyState) × (get_elem? ss i ≡ some ks)
    × (ks.health.state ≡ cooldown)
    × (ks.health.cooldown_until ≡ some t)

cooling_until-stuck :
    (ks : KeyState) (now : ℕ)
    → is_up (observe ks.health now).state ≡ false
    → is_dead ks.health.state ≡ false
    → (t : ℕ) × (ks.health.state ≡ cooldown) × (ks.health.cooldown_until ≡ some t)
unfolding observe
cooling_until-stuck ks now e d = elim (Option-cases ks.health.cooldown_until) [
  | inl n ↦ absurd (ground arith)
  | inr (t, s) ↦ (t, ground arith, s)
]

cooling_until-some :
    (ks : KeyState) (t : ℕ)
    → cooling_until ks ≡ some t
    → (ks.health.state ≡ cooldown) × (ks.health.cooldown_until ≡ some t)
unfolding cooling_until
cooling_until-some ks t e = (ground arith, ground arith)

cooling_until-cooldown :
    (ks : KeyState) (t : ℕ)
    → ks.health.state ≡ cooldown
    → ks.health.cooldown_until ≡ some t
    → cooling_until ks ≡ some t
unfolding cooling_until
cooling_until-cooldown ks t s e = ground arith

next-CoolsUntil :
    (ks : KeyState) (ss : List KeyState) (i t : ℕ)
    → CoolsUntil ss i t
    → CoolsUntil (ks ∷ ss) (suc i) t
next-CoolsUntil ks ss i t c = c

pub soonest-found : (ss : List KeyState) (t : ℕ) → soonest ss ≡ some t → (i : ℕ) × CoolsUntil ss i t
unfolding soonest
soonest-found [] t e = cc
soonest-found (ks ∷ ss) t e = elim (Option-cases (cooling_until ks)) [
  | inl n ↦ let (i, c) = soonest-found ss t (ground arith) in (suc i, c)
  | inr (u, here) ↦ elim (Option-cases (soonest ss)) [
    | inl n ↦ let (s, u) = cooling_until-some ks t (ground arith) in (0, (ks, refl, s, u))
    | inr (v, later) ↦ elim (Bool-cases (ltb v u)) [
      | inl less ↦ let (i, c) = soonest-found ss t (ground arith) in (suc i, c)
      | inr more ↦ let (s, u) = cooling_until-some ks t (ground arith) in (0, (ks, refl, s, u))
    ]
  ]
]

pub soonest-exists :
    (ss : List KeyState) (now : ℕ)
    → NoneUp ss now
    → all (λ ks. is_dead ks.health.state) ss ≡ false
    → (t : ℕ) × (soonest ss ≡ some t)
unfolding soonest
soonest-exists [] now h d = cc
soonest-exists (ks ∷ ss) now h d = elim (Option-cases (soonest ss)) [
  | inr (u, later) ↦ elim (Option-cases (cooling_until ks)) [
    | inl n ↦ (u, ground arith)
    | inr (t, here) ↦ (min t u, ground arith)
  ]
  | inl none_later ↦ elim (Bool-cases (is_dead ks.health.state)) [
    | inl dead_here ↦ absurd (ground (arith, (soonest-exists ss now h.1 (ground arith)).1))
    | inr alive ↦
        let (t, s, u) = cooling_until-stuck ks now h.0 alive in
        (t, ground (arith, cooling_until-cooldown ks t s u))
  ]
]

observe-past :
    (h : Health) (t now : ℕ)
    → h.state ≡ cooldown
    → h.cooldown_until ≡ some t
    → t ≤ now
    → is_up (observe h now).state ≡ true
unfolding observe
observe-past h t now s u le = ground arith

pub CoolsUntil-selectable :
    (ss : List KeyState) (i t now : ℕ) → CoolsUntil ss i t → t ≤ now → selectable ss now i ≡ true
CoolsUntil-selectable [] i t now (ks, found, s, u) le = absurd cc
CoolsUntil-selectable (k ∷ ss) zero t now (ks, found, s, u) le =
    observe-past k.health t now (ground arith) (ground arith) le
CoolsUntil-selectable (k ∷ ss) (suc i) t now c le = CoolsUntil-selectable ss i t now c le
