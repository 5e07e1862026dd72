-- ===== src/Pool/Admit/Held.antt =====
-- src/pool.rs: which slots are taken and given back, as a view of the pool: for each key the slots
-- that are held and those that it has.
use ollamux.Base.{
  ℕ, ◌+◌, ◌^◌, ◌<◌, ◌≡◌, ◌≢◌, ap, sym, ◌∙◌, true, false, Option, none, some, get_elem?, set, ltb,
  ◌==◌, Bool-cases, Option-cases, inl, inr, ◌⊎◌, arith,
}
use ollamux.Pool.{KeyState, Pool, modify}
use ollamux.Pool.Marks.Laws.{modify-frame}
use ollamux.Pool.Admit.{take_slot, free_slot, try_acquire, release}

abbrev pub slots_of : Option KeyState → Option (ℕ × ℕ)
slots_of none = none
slots_of (some ks) = some (ks.held, ks.concurrency)

-- The held slots and the number of slots of a key.
abbrev pub slots_at : Pool → ℕ → Option (ℕ × ℕ)
slots_at p i = slots_of (get_elem? p.states i)

-- The number of slots of a key is a `u32`.
abbrev pub Fits : Pool → Type 0
Fits p = (i held slots : ℕ) → slots_at p i ≡ some (held, slots) → slots < 2 ^ 32

abbrev pub SameSlots : Pool → Pool → Type 0
SameSlots p q = (i : ℕ) → slots_at q i ≡ slots_at p i

-- One free slot of `key` was taken and nothing else.
abbrev pub Takes : Pool → Pool → ℕ → Type 0
Takes p q key =
    (held : ℕ) × (slots : ℕ) × (slots_at p key ≡ some (held, slots))
    × (held < slots)
    × (slots_at q key ≡ some (held + 1, slots))
    × ((i : ℕ) → key ≢ i → slots_at q i ≡ slots_at p i)

pub same_states : (p q : Pool) → q.states ≡ p.states → SameSlots p q
same_states p q e i = ap (λ ss. slots_of (get_elem? ss i)) e

pub SameSlots-trans : (p q r : Pool) → SameSlots p q → SameSlots q r → SameSlots p r
SameSlots-trans p q r f g i = g i ∙ f i

pub Fits-SameSlots : (p q : Pool) → Fits p → SameSlots p q → Fits q
Fits-SameSlots p q fits same i held slots e = fits i held slots (sym (same i) ∙ e)

pub Takes-SameSlots : (p q r : Pool) (key : ℕ) → Takes p q key → SameSlots q r → Takes p r key
Takes-SameSlots p q r key (held, slots, before, free, now, rest) same =
    (held, slots, before, free, same key ∙ now, λ i ne. same i ∙ rest i ne)

pub SameSlots-Takes : (o p q : Pool) (key : ℕ) → SameSlots o p → Takes p q key → Takes o q key
SameSlots-Takes o p q key same (held, slots, before, free, now, rest) =
    (held, slots, sym (same key) ∙ before, free, now, λ i ne. rest i ne ∙ same i)

dec_key : (i j : ℕ) → (i ≡ j) ⊎ (i ≢ j)
dec_key i j = elim (Bool-cases (i == j)) [
  | inl e ↦ inl (ground arith)
  | inr e ↦ inr (λ h. ground arith)
]

pub modify-SameSlots :
    (p q : Pool) (key : ℕ) (f : KeyState → KeyState)
    → ((ks : KeyState) → slots_of (some (f ks)) ≡ slots_of (some ks))
    → modify p key f ≡ some q
    → SameSlots p q
modify-SameSlots p q key f neutral e i =
    let (ks, found, here, len, others) = modify-frame p q key f e in
    elim (dec_key key i) [
      | inl same ↦
          ap (slots_at q) (sym same)
          ∙ ap slots_of here
          ∙ neutral ks
          ∙ sym (ap slots_of found)
          ∙ ap (slots_at p) same
      | inr ne ↦ ap slots_of (others i ne)
    ]

pub try_acquire-refused : (p q : Pool) (key : ℕ) → try_acquire p key ≡ some (q, false) → q ≡ p
unfolding try_acquire modify
try_acquire-refused p q key e = elim (Option-cases (get_elem? p.states key)) [
  | inl out ↦ absurd (ground arith)
  | inr (ks, found) ↦ ground arith
]

taken :
    (p : Pool) (key : ℕ) (ks : KeyState)
    → get_elem? p.states key ≡ some ks
    → ltb ks.held ks.concurrency ≡ true
    → modify p key take_slot ≡ some (record p { states = set p.states key (take_slot ks) })
unfolding modify
taken p key ks found free = ground arith

add_u32-lt :
    (ks : KeyState)
    → ks.held < ks.concurrency
    → ks.concurrency < 2 ^ 32
    → (take_slot ks).held ≡ ks.held + 1
add_u32-lt ks h k = ground arith

pub try_acquire-Takes :
    (p q : Pool) (key : ℕ) → Fits p → try_acquire p key ≡ some (q, true) → Takes p q key
unfolding try_acquire
try_acquire-Takes p q key fits e = elim (Option-cases (get_elem? p.states key)) [
  | inl out ↦ absurd (ground arith)
  | inr (ks, found) ↦ elim (Bool-cases (ltb ks.held ks.concurrency)) [
    | inr busy ↦ absurd (ground arith)
    | inl free ↦
        let made : modify p key take_slot ≡ some q = ground (arith, taken p key ks found free) in
        let (ks', found', here, len, others) = modify-frame p q key take_slot made in
        let same : ks' ≡ ks = ground arith in
        let small = fits key ks.held ks.concurrency (ap slots_of found) in
        (
          ks.held,
          ks.concurrency,
          ap slots_of found,
          ground arith,
          ap slots_of (here ∙ ap (λ k. some (take_slot k)) same)
              ∙ ap (λ h. some (h, ks.concurrency)) (add_u32-lt ks (ground arith) small),
          λ i ne. ap slots_of (others i ne),
        )
  ]
]

given_back :
    (ks : KeyState) (held slots : ℕ)
    → slots_of (some ks) ≡ some (held + 1, slots)
    → slots_of (some (free_slot ks)) ≡ some (held, slots)
given_back ks held slots e = ground arith

-- A slot that was taken is given back, and the slots are as they were.
pub release-SameSlots :
    (p q r : Pool) (key : ℕ) → Takes p q key → release q key ≡ some r → SameSlots p r
unfolding release
release-SameSlots p q r key (held, slots, before, free, now, rest) e i =
    let (ks, found, here, len, others) = modify-frame q r key free_slot e in
    elim (dec_key key i) [
      | inl same ↦
          ap (slots_at r) (sym same)
          ∙ ap slots_of here
          ∙ given_back ks held slots (sym (ap slots_of found) ∙ now)
          ∙ sym before
          ∙ ap (slots_at p) same
      | inr ne ↦ ap slots_of (others i ne) ∙ rest i ne
    ]
