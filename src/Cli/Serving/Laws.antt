-- ===== src/Cli/Serving/Laws.antt =====
-- src/main.rs: every request that is received is served, once and in order, and the drain ends.
use ollamux.Base.{
  ℕ, ◌+◌, ◌≤◌, ◌≡◌, refl, sym, ap, ◌∙◌, true, false, Option, some, ◌>>=◌, List, [], ◌∷◌, ◌++◌, map,
  All, ltb, Bool-cases, Option-cases, inl, inr, ◌⊎◌, arith,
}
use ollamux.Cli.Serving.Drain.{
  requests, requests_of, is_broken, Paced, pauses, Runs, InDrain, DrainOf, ltb_of, bind-ext,
  drain-DrainOf, early_pauses,
}
use ollamux.Cli.Serving.{
  drain_time, Received, request, nothing, broken, Wake, Drained, accept_loop, worker_loop,
  drain_loop, serve, handle_all,
}

module _ {A S : Type 0} (handle : A → S → Option S) where
  handle_all-append :
      (front back : List A) (s : S)
      → handle_all handle (front ++ back) s
        ≡ (handle_all handle front s >>= λ u. handle_all handle back u)
  handle_all-append [] back s = refl
  handle_all-append (a ∷ front) back s = elim (Option-cases (handle a s)) [
    | inl n ↦ rw n refl
    | inr (u, e) ↦ rw e (handle_all-append front back u)
  ]

  -- What a pass receives is served, and then what the later passes receive.
  accepted-handle_all :
      (r : Received A) (rest : S → Option S) (more : List A) (s : S)
      → ((u : S) → rest u ≡ handle_all handle more u)
      → (elim r [ request a ↦ handle a s >>= rest | nothing ↦ rest s | broken ↦ rest s ])
        ≡ handle_all handle (requests r ++ more) s
  accepted-handle_all (request a) rest more s h = elim (Option-cases (handle a s)) [
    | inl n ↦ rw n refl
    | inr (u, e) ↦ rw e (h u)
  ]
  accepted-handle_all nothing rest more s h = h s
  accepted-handle_all broken rest more s h = h s

  received-handle_all :
      (r : Received A) (rest : S → Option S) (more : List A) (s : S)
      → is_broken r ≡ false
      → ((u : S) → rest u ≡ handle_all handle more u)
      → (elim r [ request a ↦ handle a s >>= rest | nothing ↦ rest s | broken ↦ some s ])
        ≡ handle_all handle (requests r ++ more) s
  received-handle_all (request a) rest more s sound h = elim (Option-cases (handle a s)) [
    | inl n ↦ rw n refl
    | inr (u, e) ↦ rw e (h u)
  ]
  received-handle_all nothing rest more s sound h = h s
  received-handle_all broken rest more s sound h = absurd cc

  accept_loop-handle_all :
      (front : List (Wake A)) (last : Wake A) (later : List (Wake A)) (s : S)
      → All Runs front
      → last.stop ≡ true
      → accept_loop handle (front ++ last ∷ later) s
        ≡ handle_all handle (requests_of (map Wake.received front)) s
  unfolding accept_loop
  accept_loop-handle_all [] last later s runs stops = rw stops refl
  accept_loop-handle_all (w ∷ front) last later s (here, runs) stops = rw here (
      accepted-handle_all w.received (λ u. accept_loop handle (front ++ last ∷ later) u)
        (requests_of (map Wake.received front)) s
        λ u. accept_loop-handle_all front last later u runs stops)

  -- A worker serves what it receives until it sees the stop flag, each request once and in the
  -- order of arrival.
  worker_loop-handle_all :
      (front : List (Wake A)) (last : Wake A) (later : List (Wake A)) (s : S)
      → All (λ w. Runs w × (is_broken (Wake.received w) ≡ false)) front
      → last.stop ≡ true
      → worker_loop handle (front ++ last ∷ later) s
        ≡ handle_all handle (requests_of (map Wake.received front)) s
  unfolding worker_loop
  worker_loop-handle_all [] last later s runs stops = rw stops refl
  worker_loop-handle_all (w ∷ front) last later s ((here, sound), runs) stops = rw here (
      received-handle_all w.received (λ u. worker_loop handle (front ++ last ∷ later) u)
        (requests_of (map Wake.received front)) s sound
        λ u. worker_loop-handle_all front last later u runs stops)

  last-handle_all :
      (deadline : ℕ) (last : Drained A) (later : List (Drained A)) (s : S)
      → (deadline ≤ last.now) ⊎ (is_broken last.received ≡ true)
      → drain_loop handle deadline (last ∷ later) s ≡ some s
  unfolding drain_loop
  last-handle_all deadline last later s ends = elim (Bool-cases (ltb last.now deadline)) [
    | inr past ↦ rw past refl
    | inl before ↦ rw before (failed last.received (ground arith))
  ]
    where
      failed :
          (r : Received A)
          → is_broken r ≡ true
          → (elim r [
            | request a ↦ handle a s >>= λ u. drain_loop handle deadline later u
            | nothing ↦ drain_loop handle deadline later s
            | broken ↦ some s
          ])
            ≡ some s
      failed (request a) h = absurd cc
      failed nothing h = absurd cc
      failed broken h = refl

  drain_loop-handle_all :
      (deadline : ℕ) (early : List (Drained A)) (last : Drained A) (later : List (Drained A))
      (s : S)
      → All (InDrain deadline) early
      → (deadline ≤ last.now) ⊎ (is_broken last.received ≡ true)
      → drain_loop handle deadline (early ++ last ∷ later) s
        ≡ handle_all handle (requests_of (map Drained.received early)) s
  unfolding drain_loop
  drain_loop-handle_all deadline [] last later s inside ends =
      last-handle_all deadline last later s ends
  drain_loop-handle_all deadline (d ∷ early) last later s ((here, sound), inside) ends =
      rw (ltb_of d.now deadline here) (
        received-handle_all d.received (λ u. drain_loop handle deadline (early ++ last ∷ later) u)
          (requests_of (map Drained.received early)) s sound
          λ u. drain_loop-handle_all deadline early last later u inside ends)

  -- The main thread, from the main loop on: if some pass of the main loop sees the stop flag, the
  -- clock does not go back, a pass of the drain that receives nothing takes 50 ms or more, and 101
  -- such passes are granted, then the drain comes to its last pass, which is at the deadline or in
  -- which the listener fails, at most 100 passes of the drain that receive nothing are before that
  -- one, and what the main loop and the drain make of the state is what the requests make of it
  -- that were received in the passes before those two, in the main loop whatever failures of the
  -- listener came between, each handled once and in the order of arrival. There is no result only
  -- where one of these requests has none.
  pub serve-InOrder :
      (front : List (Wake A)) (last : Wake A) (later : List (Wake A)) (now : ℕ)
      (drains : List (Drained A)) (s : S)
      → All Runs front
      → last.stop ≡ true
      → Paced now drains
      → 101 ≤ pauses drains
      → (d : DrainOf (now + drain_time) drains) × (pauses d.early ≤ 100)
        × (serve handle (front ++ last ∷ later) now drains s
            ≡ handle_all handle
                (requests_of (map Wake.received front)
                  ++ requests_of (map Drained.received d.early))
                s)
  unfolding serve
  serve-InOrder front last later now drains s runs stops paced many =
      let d : DrainOf (now + drain_time) drains =
        drain-DrainOf (now + drain_time) now drains paced (omega arith) (omega arith) in
      let drained = λ (u : S).
        drain_loop-handle_all (now + drain_time) d.early d.last d.later u d.in_time d.ends in
      (
        d,
        early_pauses now drains d paced,
        ap (λ o. o >>= λ u. drain_loop handle (now + drain_time) drains u)
              (accept_loop-handle_all front last later s runs stops)
            ∙ bind-ext (handle_all handle (requests_of (map Wake.received front)) s)
                (λ u. ap (λ ds. drain_loop handle (now + drain_time) ds u) d.split ∙ drained u)
            ∙ sym (
                handle_all-append (requests_of (map Wake.received front))
                  (requests_of (map Drained.received d.early)) s),
      )
