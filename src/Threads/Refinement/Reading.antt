-- ===== src/Threads/Refinement/Reading.antt =====
-- src/pool.rs: reading the states of the keys is a run of a thread.
use mathlib.Core.List.{append_assoc}
use ollamux.Base.{
  ℕ, ◌≡◌, refl, sym, ap, ◌∙◌, subst, some, ◌>>=◌, List, [], ◌∷◌, ◌++◌, length, get_elem?, set,
  Bool-cases, inl, inr, ◌⊎◌,
}
use ollamux.Pool.{KeyState, Pool, modify, observe_key}
use ollamux.Pool.Select.{all_dead, observe_all, is_dead}
use ollamux.Threads.{admitting, reads}
use ollamux.Threads.Refinement.{Run, stays, goes, Run-trans}

-- Some of the states were read.
abbrev pub Seen : ℕ → List KeyState → List KeyState → Type 0
Seen now [] [] = Unit {0}
Seen now [] (k ∷ ks) = ⊥
Seen now (k ∷ ks) [] = ⊥
Seen now (k ∷ ks) (k' ∷ ks') = ((k' ≡ k) ⊎ (k' ≡ observe_key k now)) × Seen now ks ks'

Seen-refl : (now : ℕ) (ks : List KeyState) → Seen now ks ks
Seen-refl now [] = tt
Seen-refl now (k ∷ ks) = (inl refl, Seen-refl now ks)

pub all_dead-Seen : (now : ℕ) (ks : List KeyState) → Seen now ks (all_dead ks now).0
unfolding all_dead
all_dead-Seen now [] = tt
all_dead-Seen now (k ∷ ks) = elim (Bool-cases (is_dead (observe_key k now).health.state)) [
  | inl d ↦ rw d (inr refl, all_dead-Seen now ks)
  | inr d ↦ rw d (inr refl, Seen-refl now ks)
]

pub observe_all-Seen : (now : ℕ) (ks : List KeyState) → Seen now ks (observe_all ks now)
unfolding observe_all
observe_all-Seen now [] = tt
observe_all-Seen now (k ∷ ks) = (inr refl, observe_all-Seen now ks)

get_elem?-append :
    (front : List KeyState) (k : KeyState) (ks : List KeyState)
    → get_elem? (front ++ k ∷ ks) (length front) ≡ some k
get_elem?-append [] k ks = refl
get_elem?-append (x ∷ front) k ks = get_elem?-append front k ks

set-append :
    (front : List KeyState) (k k' : KeyState) (ks : List KeyState)
    → set (front ++ k ∷ ks) (length front) k' ≡ front ++ k' ∷ ks
set-append [] k k' ks = refl
set-append (x ∷ front) k k' ks = ap (λ l. x ∷ l) (set-append front k k' ks)

abbrev pub with_states : Pool → List KeyState → Pool
with_states p ss = record p { states = ss }

modify-append :
    (p : Pool) (front : List KeyState) (k : KeyState) (ks : List KeyState) (f : KeyState → KeyState)
    → modify (with_states p (front ++ k ∷ ks)) (length front) f
      ≡ some (with_states p (front ++ f k ∷ ks))
unfolding modify
modify-append p front k ks f =
    ap (λ o. o >>= λ x. some (with_states p (set (front ++ k ∷ ks) (length front) (f x))))
      (get_elem?-append front k ks)
    ∙ ap (λ l. some (with_states p l)) (set-append front k (f k) ks)

module _ (Others : Pool → Pool → Type 0) where
  read-Run :
      (p : Pool) (n now : ℕ) (front ss ss' : List KeyState)
      → Seen now ss ss'
      → Run Others
          (with_states p (front ++ ss))
          (admitting n)
          (with_states p (front ++ ss'))
          (admitting n)
  read-Run p n now front [] [] h = stays
  read-Run p n now front [] (k ∷ ks) h = elim h [ ]
  read-Run p n now front (k ∷ ks) [] h = elim h [ ]
  read-Run p n now front (k ∷ ks) (k' ∷ ks') (one, more) =
      let later =
        subst
          (λ l.
            Run Others (with_states p l) (admitting n) (with_states p (front ++ k' ∷ ks'))
              (admitting n))
          (append_assoc front (k' ∷ []) ks)
          (subst
            (λ l.
              Run Others (with_states p ((front ++ k' ∷ []) ++ ks)) (admitting n) (with_states p l)
                (admitting n))
            (append_assoc front (k' ∷ []) ks') (read-Run p n now (front ++ k' ∷ []) ks ks' more)) in
      elim one [
        | inl same ↦
            subst
              (λ x.
                Run Others (with_states p (front ++ x ∷ ks)) (admitting n)
                  (with_states p (front ++ k' ∷ ks')) (admitting n))
              same later
        | inr seen ↦
            Run-trans
              (goes stays (
                reads (length front) now (
                  subst
                    (λ x.
                      modify (with_states p (front ++ k ∷ ks)) (length front)
                        (λ s. observe_key s now)
                      ≡ some (with_states p (front ++ x ∷ ks)))
                    (sym seen) (modify-append p front k ks (λ s. observe_key s now)))))
              later
      ]

  pub Seen-Run :
      (p : Pool) (n now : ℕ) (ss : List KeyState)
      → Seen now p.states ss
      → Run Others p (admitting n) (with_states p ss) (admitting n)
  Seen-Run p n now ss h = read-Run p n now [] p.states ss h
