-- ===== src/Usage/Resets.antt =====
-- src/usage.rs: when the aggregate has a value for a window, and when it has a reset.
use ollamux.Base.{
  is_some, is_empty, ℕ, ◌≡◌, refl, sym, ap, ◌∙◌, Bool, true, false, not, ◌&&◌, ◌||◌, Option, none,
  some, List, [], ◌∷◌, All, if◌then◌else◌, Bool-cases, Option-cases, inl, inr, ◌↔◌, Text, text_eq,
  text_eq_sound, text_eq_refl, arith,
}
use ollamux.Snapshot.{Floats, KeyUsage, UsageSnapshot}
use ollamux.Usage.Aggregate.{
  Window, unify_reset, add_to_window, weight_of, sum_window, empty_window, mean, reset_of,
  aggregate,
}

-- The unification of several resets in turn.
abbrev unify_all : Option (Option Text) → List (Option Text) → Option (Option Text)
unify_all r [] = r
unify_all r (next ∷ rest) = unify_all (unify_reset r next) rest

unify_all-torn : (rs : List (Option Text)) → unify_all (some none) rs ≡ some none
unfolding unify_reset
unify_all-torn [] = refl
unify_all-torn (r ∷ rs) = unify_all-torn rs

abbrev Unanimous : Text → List (Option Text) → Type 0
Unanimous t rs = All (λ (r : Option Text). r ≡ some t) rs

unify_all_sound :
    (a t : Text) (rs : List (Option Text))
    → unify_all (some (some a)) rs ≡ some (some t)
    → (a ≡ t) × Unanimous t rs
unfolding unify_reset
unify_all_sound a t [] e = (cc, tt)
unify_all_sound a t (none ∷ rs) e = absurd (ground (arith, unify_all-torn rs))
unify_all_sound a t (some b ∷ rs) e = elim (Bool-cases (text_eq a b)) [
  | inr differ ↦ absurd (ground (arith, unify_all-torn rs))
  | inl same ↦
      let (first, others) = unify_all_sound a t rs (ground arith) in
      (first, (ap (λ x. some x) (sym (text_eq_sound a b same) ∙ first), others))
]

unify_all_complete :
    (t : Text) (rs : List (Option Text))
    → Unanimous t rs
    → unify_all (some (some t)) rs ≡ some (some t)
unfolding unify_reset
unify_all_complete t [] u = refl
unify_all_complete t (r ∷ rs) u = ground (arith, text_eq_refl t, unify_all_complete t rs u.1)

module _ {F : Type 0} (fl : Floats F) where
  -- The resets of the rows that have a value for the window.
  abbrev pub resets :
      (KeyUsage F → Option F) → (KeyUsage F → Option Text) → List (KeyUsage F) → List (Option Text)
  resets value reset [] = []
  resets value reset (k ∷ ks) =
      if k.is_ok && is_some (value k)
      then reset k ∷ resets value reset ks
      else resets value reset ks

  -- What a window comes to over the rows whose resets are `rs`.
  abbrev Sums : Window F → List (Option Text) → Window F → Type 0
  Sums w rs u = (u.reset ≡ unify_all w.reset rs) × (u.seen ≡ (w.seen || not (is_empty rs)))

  -- One row, with `f` for the rows behind it.
  row-Sums :
      (good : Bool) (value : Option F) (reset : Option Text) (weight : ℕ) (w : Window F)
      (rs : List (Option Text)) (f : Window F → Window F)
      → ((x : Window F) → Sums x rs (f x))
      → Sums w
          (if good && is_some value then reset ∷ rs else rs)
          (f (if good then add_to_window fl w weight value reset else w))
  unfolding add_to_window
  row-Sums false value reset weight w rs f h = h w
  row-Sums true none reset weight w rs f h = h w
  row-Sums true (some v) reset weight w rs f h =
      let (reset_eq, seen_eq) = h (add_to_window fl w weight (some v) reset) in
      (reset_eq, seen_eq ∙ ground arith)

  sum_window-Sums :
      (value : KeyUsage F → Option F) (reset : KeyUsage F → Option Text) (concurrencies : List ℕ)
      (ks : List (KeyUsage F)) (w : Window F)
      → Sums w (resets value reset ks) (sum_window fl value reset concurrencies w ks)
  unfolding sum_window
  sum_window-Sums value reset concurrencies [] w = (refl, ground arith)
  sum_window-Sums value reset concurrencies (k ∷ ks) w =
      row-Sums k.is_ok (value k) (reset k) (weight_of fl concurrencies k) w (resets value reset ks)
        (λ x. sum_window fl value reset concurrencies x ks)
        (sum_window-Sums value reset concurrencies ks)

  -- A value is there exactly if some row reports one, and a reset exactly if, besides, all rows
  -- that report one give that reset.
  abbrev pub Reports : Option F → Option Text → List (Option Text) → Type 0
  Reports v r rs =
      ((v ≡ none) ↔ (is_empty rs ≡ true))
      × ((t : Text)
          → (r ≡ some t) ↔ ((is_empty rs ≡ false) × All (λ (x : Option Text). x ≡ some t) rs))

  mean-unseen : (u : Window F) → u.seen ≡ false → mean fl u ≡ none
  mean-unseen u e = ground arith

  mean-seen : (u : Window F) → u.seen ≡ true → mean fl u ≡ none → true ≡ false
  mean-seen u e n = absurd (ground arith)

  reset_of-unseen : (u : Window F) → u.seen ≡ false → reset_of fl u ≡ none
  reset_of-unseen u e = ground arith

  reset_of-seen :
      (u : Window F) (t : Text)
      → u.seen ≡ true
      → (reset_of fl u ≡ some t) ↔ (u.reset ≡ some (some t))
  reset_of-seen u t e = (
    λ h. elim (Option-cases u.reset) [
      | inl n ↦ absurd (ground arith)
      | inr (none, s) ↦ absurd (ground arith)
      | inr (some x, s) ↦ ground arith
    ],
    λ h. ground arith,
  )

  -- What `mean` and `reset_of` make of a window.
  Sums-Reports :
      (rs : List (Option Text)) (u : Window F)
      → Sums (empty_window fl) rs u
      → Reports (mean fl u) (reset_of fl u) rs
  unfolding unify_reset
  Sums-Reports [] u (reset, seen) = (
    (λ n. refl, λ e. mean-unseen u seen),
    λ t. (λ h. absurd (ground (arith, reset_of-unseen u seen)), λ h. absurd (ground arith)),
  )
  Sums-Reports (none ∷ rs) u (reset, seen) = (
    (λ n. sym (mean-seen u seen n), λ e. absurd (ground arith)),
    λ t. (
      λ h. absurd (ground (arith, (reset_of-seen u t seen).0 h, unify_all-torn rs)),
      λ h. absurd (ground arith),
    ),
  )
  Sums-Reports (some a ∷ rs) u (reset, seen) = (
    (λ n. sym (mean-seen u seen n), λ e. absurd (ground arith)),
    λ t. (
      λ h.
          let (first, others) = unify_all_sound a t rs (sym reset ∙ (reset_of-seen u t seen).0 h) in
          (refl, (ap (λ x. some x) first, others)),
      λ h. (reset_of-seen u t seen).1 (
          reset
          ∙ ap (λ (x : Option Text). unify_all (some x) rs) h.1.0
          ∙ unify_all_complete t rs h.1.1),
    ),
  )

  -- The aggregate has a value for a window exactly if some row that is good reports one for it; and
  -- it has a reset for it exactly if, besides, all the rows that report one give that same reset.
  -- This holds for the session window and for the weekly one, whatever the rows weigh.
  pub aggregate-Reports :
      (snap : UsageSnapshot F) (concurrencies : List ℕ)
      → Reports
          (aggregate fl snap concurrencies).session
          (aggregate fl snap concurrencies).session_resets_at
          (resets KeyUsage.session KeyUsage.session_resets_at snap.keys)
        × Reports
            (aggregate fl snap concurrencies).weekly
            (aggregate fl snap concurrencies).weekly_resets_at
            (resets KeyUsage.weekly KeyUsage.weekly_resets_at snap.keys)
  unfolding aggregate
  aggregate-Reports snap concurrencies = (
    Sums-Reports _ _ (
        sum_window-Sums KeyUsage.session KeyUsage.session_resets_at concurrencies snap.keys
          (empty_window fl)),
    Sums-Reports _ _ (
        sum_window-Sums KeyUsage.weekly KeyUsage.weekly_resets_at concurrencies snap.keys
          (empty_window fl)),
  )
