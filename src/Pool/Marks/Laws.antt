-- ===== src/Pool/Marks/Laws.antt =====
-- src/pool.rs: the health of a key over any history of marks.
use ollamux.Base.{
  ℕ, zero, suc, ◌+◌, ◌≤◌, ◌<◌, ◌≡◌, ◌≢◌, ◌⊎◌, inl, inr, Bool, true, false, Option, none, some, List,
  [], ◌∷◌, length, length-set, get_elem?, set, get_elem?-set_ne, get_elem?-set_self, get_elem?-lt,
  Option-cases, Text, arith,
}
use ollamux.Pool.{Health, KeyState, Pool, State, up, cooldown, dead, secs, modify, observe}
use ollamux.Pool.Marks.{die, cool, strike, confirm}

abbrev pub has_time : Option ℕ → Bool
has_time none = false
has_time (some t) = true

abbrev pub is_cooling : State → Bool
is_cooling up = false
is_cooling cooldown = true
is_cooling dead = false

-- A key has an end of cooldown exactly while it cools, and never keeps three strikes.
pub record IsValid (h : Health) : Type 0 where
  pub timed : has_time h.cooldown_until ≡ is_cooling h.state
  pub struck : h.strikes ≤ 2

-- What may happen to the health of a key, with the clock's reading.
pub data Mark : Type 0 where
  dies : Text → Mark
  cools : ℕ → ℕ → Text → Mark
  strikes : ℕ → Text → Mark
  settles : Bool → Mark
  observed : ℕ → Mark

abbrev pub apply : Mark → Health → Health
apply (dies reason) h = die reason h
apply (cools now dur reason) h = cool now dur reason h
apply (strikes now reason) h = strike now reason h
apply (settles ok) h = confirm ok h
apply (observed now) h = observe h now

abbrev pub apply_all : List Mark → Health → Health
apply_all [] h = h
apply_all (m ∷ ms) h = apply_all ms (apply m h)

pub apply-IsValid : (m : Mark) (h : Health) → IsValid h → IsValid (apply m h)
unfolding die cool strike confirm observe
apply-IsValid (dies reason) h v = ground arith
apply-IsValid (cools now dur reason) h v = ground arith
apply-IsValid (strikes now reason) h v = ground arith
apply-IsValid (settles true) h v = ground arith
apply-IsValid (settles false) h v = ground arith
apply-IsValid (observed now) h v = ground arith

-- A health in which the end of a cooldown is there exactly while the key is in cooldown, and at most
-- two strikes are kept, as in that of a new key, stays so over any history of marks.
pub apply_all-IsValid : (ms : List Mark) (h : Health) → IsValid h → IsValid (apply_all ms h)
apply_all-IsValid [] h v = v
apply_all-IsValid (m ∷ ms) h v = apply_all-IsValid ms (apply m h) (apply-IsValid m h v)

abbrev pub strike_times : ℕ → Text → ℕ → Health → Health
strike_times now reason zero h = h
strike_times now reason (suc n) h = strike_times now reason n (strike now reason h)

-- The third strike in a row puts the key in cooldown for 60 s and clears the strikes; the first two
-- leave its state, and count.
pub strike-cools :
    (h : Health) (now : ℕ) (reason : Text)
    → h.strikes ≡ 0
    → ((strike_times now reason 2 h).state ≡ h.state)
      × ((strike_times now reason 2 h).strikes ≡ 2)
      × ((strike_times now reason 3 h).state ≡ cooldown)
      × ((strike_times now reason 3 h).cooldown_until ≡ some (now + secs 60))
      × ((strike_times now reason 3 h).strikes ≡ 0)
unfolding strike
strike-cools h now reason e = ground arith

-- A cooldown ends on its own: the key reads as cooling strictly before its end, and as up from then
-- on.
pub observe-cool :
    (h : Health) (now dur later : ℕ) (reason : Text)
    → let s = (observe (cool now dur reason h) later).state in
      ((later < now + dur) × (s ≡ cooldown)) ⊎ ((now + dur ≤ later) × (s ≡ up))
unfolding observe cool
observe-cool h now dur later reason = ground arith

-- A dead key is not dead for good: a 429 of another request that was in flight on the key, marked
-- after the 401, makes the key selectable again as soon as that cooldown has passed; and so does a
-- success that was in flight, at once.
pub dead_key_revives :
    (h : Health) (now dur later : ℕ) (invalid reason : Text)
    → now + dur ≤ later
    → ((observe (cool now dur reason (die invalid h)) later).state ≡ up)
      × ((observe (confirm true (die invalid h)) later).state ≡ up)
unfolding observe cool die confirm
dead_key_revives h now dur later invalid reason e = ground arith

-- What `modify` does when the index is in range.
pub modify-eq-some :
    (p q : Pool) (key : ℕ) (f : KeyState → KeyState)
    → modify p key f ≡ some q
    → (ks : KeyState) × (get_elem? p.states key ≡ some ks)
      × (q ≡ record p { states = set p.states key (f ks) })
unfolding modify
modify-eq-some p q key f e = elim (Option-cases (get_elem? p.states key)) [
  | inl out ↦ absurd (ground arith)
  | inr (ks, found) ↦ (ks, found, ground arith)
]

pub modify-frame :
    (p q : Pool) (key : ℕ) (f : KeyState → KeyState)
    → modify p key f ≡ some q
    → (ks : KeyState) × (get_elem? p.states key ≡ some ks)
      × (get_elem? q.states key ≡ some (f ks))
      × (length q.states ≡ length p.states)
      × ((other : ℕ) → key ≢ other → get_elem? q.states other ≡ get_elem? p.states other)
modify-frame p q key f e =
    let (ks, found, made) = modify-eq-some p q key f e in
    (
      ks,
      found,
      rw made (get_elem?-set_self p.states key (f ks) (get_elem?-lt p.states key found)),
      rw made (length-set p.states key (f ks)),
      λ other ne. rw made (get_elem?-set_ne p.states key other (f ks) ne),
    )
