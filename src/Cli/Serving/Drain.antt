-- ===== src/Cli/Serving/Drain.antt =====
-- src/main.rs: the passes of the drain, and that there is a last one.
use ollamux.Base.{
  ℕ, ◌+◌, ◌-◌, ◌*◌, ◌≤◌, ◌<◌, ◌≡◌, refl, ap, subst, Bool, true, false, Option, none, some, ◌>>=◌,
  List, [], ◌∷◌, ◌++◌, All, ltb, Bool-cases, inl, inr, ◌⊎◌, arith,
}
use ollamux.Cli.Serving.{drain_time, pause, Received, request, nothing, broken, Wake, Drained}

abbrev pub requests : {A : Type 0} → Received A → List A
requests (request a) = a ∷ []
requests nothing = []
requests broken = []

-- The requests among what is received, in their order.
abbrev pub requests_of : {A : Type 0} → List (Received A) → List A
requests_of [] = []
requests_of (r ∷ rs) = requests r ++ requests_of rs

abbrev pub is_broken : {A : Type 0} → Received A → Bool
is_broken (request a) = false
is_broken nothing = false
is_broken broken = true

abbrev pause_after : {A : Type 0} → Received A → ℕ
pause_after (request a) = 0
pause_after nothing = pause
pause_after broken = 0

-- The clock does not go back, and a pass that receives nothing takes 50 ms or more.
abbrev pub Paced : {A : Type 0} → ℕ → List (Drained A) → Type 0
Paced from [] = Unit {0}
Paced from (d ∷ ds) =
    (from ≤ Drained.now d) × Paced (Drained.now d + pause_after (Drained.received d)) ds

abbrev is_pause : {A : Type 0} → Received A → ℕ
is_pause (request a) = 0
is_pause nothing = 1
is_pause broken = 0

-- How many passes receive nothing.
abbrev pub pauses : {A : Type 0} → List (Drained A) → ℕ
pauses [] = 0
pauses (d ∷ ds) = is_pause (Drained.received d) + pauses ds

pause_of : {A : Type 0} (r : Received A) → (pause_after r ≡ pause * is_pause r) × (is_pause r ≤ 1)
pause_of (request a) = (refl, omega arith)
pause_of nothing = (refl, omega arith)
pause_of broken = (refl, omega arith)

pub ltb_of : (n m : ℕ) → n < m → ltb n m ≡ true
ltb_of n m h = ground arith

-- The stop flag is not seen.
abbrev pub Runs : {A : Type 0} → Wake A → Type 0
Runs w = Wake.stop w ≡ false

-- A pass before the deadline in which the listener does not fail.
abbrev pub InDrain : {A : Type 0} → ℕ → Drained A → Type 0
InDrain deadline d = (Drained.now d < deadline) × (is_broken (Drained.received d) ≡ false)

-- The passes of a drain up to its last one, which is at the deadline or later, or in which the
-- listener fails.
pub record DrainOf {A : Type 0} (deadline : ℕ) (ds : List (Drained A)) : Type 0 where
  pub early : List (Drained A)
  pub last : Drained A
  pub later : List (Drained A)
  pub split : ds ≡ early ++ last ∷ later
  pub in_time : All (InDrain deadline) early
  pub ends : (deadline ≤ last.now) ⊎ (is_broken last.received ≡ true)

pub bind-ext :
    {S T : Type 0} {f g : S → Option T} (o : Option S)
    → ((u : S) → f u ≡ g u)
    → (o >>= f) ≡ (o >>= g)
bind-ext none h = refl
bind-ext (some u) h = h u

module _ {A : Type 0} where
  drain_later :
      (deadline : ℕ) (d : Drained A) (ds : List (Drained A))
      → InDrain deadline d
      → DrainOf deadline ds
      → DrainOf deadline (d ∷ ds)
  drain_later deadline d ds here e = record {
    early = d ∷ e.early;
    last = e.last;
    later = e.later;
    split = ap (λ es. d ∷ es) e.split;
    in_time = (here, e.in_time);
    ends = e.ends;
  }

  drain_here :
      (deadline : ℕ) (d : Drained A) (ds : List (Drained A))
      → (deadline ≤ d.now) ⊎ (is_broken d.received ≡ true)
      → DrainOf deadline (d ∷ ds)
  drain_here deadline d ds ends = record {
    early = [];
    last = d;
    later = ds;
    split = refl;
    in_time = tt;
    ends = ends;
  }

  pub drain-DrainOf :
      (deadline from : ℕ) (ds : List (Drained A))
      → Paced from ds
      → 1 ≤ pauses ds
      → deadline ≤ from + pause * (pauses ds - 1)
      → DrainOf deadline ds
  drain-DrainOf deadline from [] p few e = absurd (omega arith)
  drain-DrainOf deadline from (d ∷ ds) (p, ps) few e = elim (Bool-cases (ltb d.now deadline)) [
    | inr past ↦ drain_here deadline d ds (inl (ground arith))
    | inl before ↦ elim (Bool-cases (is_broken d.received)) [
      | inl failed ↦ drain_here deadline d ds (inr failed)
      | inr sound ↦
          drain_later deadline d ds (ground arith, sound)
            (drain-DrainOf deadline (d.now + pause_after d.received) ds ps
              (ground (arith, pause_of d.received)) (ground (arith, pause_of d.received)))
    ]
  ]

  -- Passes before the deadline that receive nothing are few.
  pauses_bounded :
      (deadline from : ℕ) (early ds : List (Drained A))
      → Paced from (early ++ ds)
      → All (InDrain deadline) early
      → 1 ≤ pauses early
      → from + pause * (pauses early - 1) < deadline
  pauses_bounded deadline from [] ds p inside many = absurd (omega arith)
  pauses_bounded deadline from (d ∷ early) ds (p, ps) ((here, sound), inside) many = ground (
    arith,
    pause_of d.received,
    pauses_bounded deadline (d.now + pause_after d.received) early ds ps inside,
  )

  -- At most 100 of the passes before the last one receive nothing.
  pub early_pauses :
      (now : ℕ) (ds : List (Drained A)) (d : DrainOf (now + drain_time) ds)
      → Paced now ds
      → pauses d.early ≤ 100
  early_pauses now ds d paced = elim (Bool-cases (ltb 100 (pauses d.early))) [
    | inr few ↦ ground arith
    | inl many ↦
        let late : now + pause * (pauses d.early - 1) < now + drain_time =
          pauses_bounded (now + drain_time) now d.early (d.last ∷ d.later)
            (subst (λ es. Paced now es) d.split paced) d.in_time (ground arith) in
        absurd (ground arith)
  ]
