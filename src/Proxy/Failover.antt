-- ===== src/Proxy/Failover.antt =====
-- src/proxy.rs: which answer a client gets when attempts fail on one key after the other.
pub mod Answers
use ollamux.Base.{
  ℕ, suc, ◌+◌, ◌≤◌, ◌≡◌, refl, ◌∙◌, Bool, true, false, Option, none, some, ◌>>=◌, List, [], ◌∷◌,
  All, take, get_elem?, length, ltb, leb, ◌==◌, ◌&&◌, ◌||◌, Bool-cases, Option-cases, inl, inr, ◌⊎◌,
  arith, Text, is_some, bind-some, subst,
}
use ollamux.Pool.{Pool}
use ollamux.Pool.Marks.{settle}
use ollamux.Pool.Admit.{Round, Admission, admitted, rejected, admit, admit_affine, release}
use ollamux.Pool.Admit.Rejected.{IsRejection, admit-IsRejection, admit_affine-IsRejection}
use ollamux.Pool.Admit.Slots.{Ends}
use ollamux.Pool.Admit.Held.{Fits}
use ollamux.Pool.Admit.Conservation.{Steady}
use ollamux.Pool.Admit.Progress.{PinInRange}
use ollamux.Proxy.Returns.{Ending, proxy_keyed-Returns}
use ollamux.Proxy.{
  Upstream, success, error_status, no_answer, Delivery, delivered, cut, Attempt, sent, retryable,
  relay, is_unauthorized, classify, attempt, Outcome, pin_some, unpin_some, Turn, finish, next_turn,
  try_turn, attempts, proxy_keyed, wait_timeout, max_attempts,
}
use ollamux.Proxy.Failover.Answers.{fails, shown, attempt-AllRead}

abbrev pub Fails : Turn → Type 0
Fails t = fails t.upstream ≡ true

-- The answer of attempt `i` is the client's.
abbrev pub Answered : List Turn → ℕ → Outcome → Type 0
Answered turns i out =
    (t : Turn) × (get_elem? turns i ≡ some t)
    × (fails t.upstream ≡ false)
    × (out.status ≡ shown t.upstream t.delivery)
    × (is_some out.key ≡ true)

-- Attempt `i` failed too, and was the last that is made.
abbrev pub Exhausted : List Turn → ℕ → Outcome → Type 0
Exhausted turns i out =
    (t : Turn) × (get_elem? turns i ≡ some t)
    × (fails t.upstream ≡ true)
    × (out.status ≡ 502)
    × (is_some out.key ≡ true)

-- The pool gave no key.
abbrev pub TurnedAway : Outcome → Type 0
TurnedAway out = IsRejection out.status × (out.key ≡ none)

-- How a request with `retries` failed attempts behind it ends.
abbrev Decided : ℕ → List Turn → Outcome → Type 0
Decided retries turns out =
    (i : ℕ) × (out.retries ≡ retries + i)
    × (retries + i ≤ 2)
    × All Fails (take i turns)
    × (Answered turns i out ⊎ (((retries + i ≡ 2) × Exhausted turns i out) ⊎ TurnedAway out))

abbrev AllDecided : ℕ → List Turn → Option (Pool × Outcome) → Type 0
AllDecided retries turns o =
    (q : Pool) (out : Outcome) → o ≡ some (q, out) → Decided retries turns out

-- One more failed attempt in front.
after_failure :
    (retries : ℕ) (t : Turn) (ts : List Turn) (out : Outcome)
    → Fails t
    → Decided (suc retries) ts out
    → Decided retries (t ∷ ts) out
after_failure retries t ts out failed (i, e, few, all, ends) =
    (suc i, omega (arith, e), omega (arith, few), (failed, all), shift ends)
  where
    shift :
        Answered ts i out ⊎ (((suc retries + i ≡ 2) × Exhausted ts i out) ⊎ TurnedAway out)
        → Answered (t ∷ ts) (suc i) out
          ⊎ (((retries + suc i ≡ 2) × Exhausted (t ∷ ts) (suc i) out) ⊎ TurnedAway out)
    shift (inl a) = inl a
    shift (inr (inl (two, x))) = inr (inl (omega (arith, two), x))
    shift (inr (inr r)) = inr (inr r)

finish-outcome :
    (p q : Pool) (key : ℕ) (identity : Option ℕ) (pinned_before : Bool) (status retries : ℕ)
    (out : Outcome)
    → finish p key identity pinned_before status retries ≡ some (q, out)
    → (out.status ≡ status) × (out.retries ≡ retries) × (is_some out.key ≡ true)
unfolding finish
finish-outcome p q key identity pinned_before status retries out e =
    let (r, settled, more) = bind-some (settle p key (ltb status 400)) _ _ e in
    let (s, freed, ended) = bind-some (release _ key) _ _ more in
    (ground arith, ground arith, ground arith)

next_turn-AllDecided :
    (again : ℕ → Pool → Option (Pool × Outcome)) (identity : Option ℕ) (retries : ℕ) (t : Turn)
    (ts : List Turn) (s : Pool) (r : Pool × Admission)
    → Fails t
    → leb max_attempts (retries + 1) ≡ false
    → ((k : ℕ) (q : Pool) → AllDecided (suc retries) ts (again k q))
    → admit s wait_timeout t.now t.rounds ≡ some r
    → AllDecided retries (t ∷ ts) (next_turn again identity retries r)
next_turn-AllDecided again identity retries t ts s (u, admitted k) failed few next ran q out e =
    after_failure retries t ts out failed (next k (pin_some identity k u) q out e)
next_turn-AllDecided again identity retries t ts s (u, rejected rej) failed few next ran q out e = (
  1,
  ground arith,
  ground arith,
  (failed, tt),
  inr (
      inr (
        subst IsRejection {x = rej.status} {y = out.status} (ground arith)
            (admit-IsRejection s u wait_timeout t.now t.rounds rej ran),
        ground arith,
      )),
)

try_turn-AllDecided :
    (again : ℕ → Pool → Option (Pool × Outcome)) (identity : Option ℕ) (pinned_before : Bool)
    (key retries : ℕ) (t : Turn) (ts : List Turn) (p : Pool)
    → retries ≤ 2
    → (leb max_attempts (retries + 1) ≡ false
        → (k : ℕ) (q : Pool) → AllDecided (suc retries) ts (again k q))
    → AllDecided retries (t ∷ ts) (try_turn again identity pinned_before key retries t p)
unfolding try_turn
try_turn-AllDecided again identity pinned_before key retries t ts p few next q out e =
    let here = t.others p in
    let reads = attempt-AllRead here key t.upstream t.delivery t.now in
    elim (Option-cases (attempt here key t.upstream t.delivery t.now)) [
      | inl none_there ↦ absurd (ground arith)
      | inr ((r, sent status), ran) ↦
          let (passes, is_shown) = reads r (sent status) ran in
          let (same, tried, named) =
            finish-outcome r q key identity pinned_before status retries out (ground arith) in
          (0, omega (arith, tried), omega arith, tt, inl (t, refl, passes, same ∙ is_shown, named))
      | inr ((r, retryable reason), ran) ↦
          let failed = reads r (retryable reason) ran in
          elim (Option-cases (release (unpin_some identity key r) key)) [
            | inl none_there ↦ absurd (ground arith)
            | inr (s, freed) ↦ elim (Bool-cases (leb max_attempts (retries + 1))) [
              | inl last ↦ (
                0,
                ground arith,
                omega arith,
                tt,
                inr (inl (ground arith, (t, refl, failed, ground arith, ground arith))),
              )
              | inr more ↦ elim (Option-cases (admit s wait_timeout t.now t.rounds)) [
                | inl none_there ↦ absurd (ground arith)
                | inr (a, given) ↦
                    next_turn-AllDecided again identity retries t ts s a failed more (next more)
                      given q out (ground arith)
              ]
            ]
          ]
    ]

attempts-AllDecided :
    (identity : Option ℕ) (pinned_before : Bool) (key retries : ℕ) (turns : List Turn) (p : Pool)
    → retries ≤ 2
    → AllDecided retries turns (attempts identity pinned_before key retries turns p)
unfolding attempts
attempts-AllDecided identity pinned_before key retries [] p few q out e = absurd (ground arith)
attempts-AllDecided identity pinned_before key retries (t ∷ ts) p few q out e =
    try_turn-AllDecided (λ k q. attempts identity pinned_before k (suc retries) ts q) identity
      pinned_before key retries t ts p few
      (λ more k r. attempts-AllDecided identity pinned_before k (suc retries) ts r (ground arith)) q
      out e

proxy_keyed-Decided :
    (p q : Pool) (identity : Option ℕ) (pinned_before : Bool) (now : ℕ) (rounds : List Round)
    (turns : List Turn) (out : Outcome)
    → proxy_keyed p identity pinned_before now rounds turns ≡ some (q, out)
    → Decided 0 turns out
unfolding proxy_keyed
proxy_keyed-Decided p q identity pinned_before now rounds turns out e =
    elim (Option-cases (admit_affine p wait_timeout identity now rounds)) [
      | inl none_there ↦ absurd (ground arith)
      | inr ((r, admitted key), ran) ↦
          attempts-AllDecided identity pinned_before key 0 turns r (omega arith) q out
            (ground arith)
      | inr ((r, rejected rej), ran) ↦ (
        0,
        ground arith,
        omega arith,
        tt,
        inr (
            inr (
              subst IsRejection {x = rej.status} {y = out.status} (ground arith)
                  (admit_affine-IsRejection p r wait_timeout identity now rounds rej ran),
              ground arith,
            )),
      )
    ]

-- How a request ends after its failed attempts: with the answer of the next attempt, with a gateway
-- error after the third failure, or turned away by the pool.
abbrev pub Failover : List Turn → Outcome → Type 0
Failover turns out =
    (out.retries ≤ 2)
    × All Fails (take out.retries turns)
    × (Answered turns out.retries out
        ⊎ (((out.retries ≡ 2) × Exhausted turns out.retries out) ⊎ TurnedAway out))

Decided-Failover : (turns : List Turn) (out : Outcome) → Decided 0 turns out → Failover turns out
Decided-Failover turns out (i, e, few, all, ends) =
    let same : i ≡ out.retries = omega (arith, e) in
    (omega (arith, e), subst (λ n. All Fails (take n turns)) same all, place ends)
  where
    place :
        Answered turns i out ⊎ (((0 + i ≡ 2) × Exhausted turns i out) ⊎ TurnedAway out)
        → Answered turns out.retries out
          ⊎ (((out.retries ≡ 2) × Exhausted turns out.retries out) ⊎ TurnedAway out)
    place (inl a) =
        inl (subst (λ n. Answered turns n out) {x = i} {y = out.retries} (omega (arith, e)) a)
    place (inr (inl (two, x))) = inr (
        inl (
          omega (arith, e, two),
          subst (λ n. Exhausted turns n out) {x = i} {y = out.retries} (omega (arith, e)) x,
        ))
    place (inr (inr r)) = inr (inr r)

-- A request with a key to its name comes to an end, and its attempts decide how. Granted three
-- turns, it returns an outcome with at most two retries, and the first attempts, as many as the
-- retries, all failed: no answer, a key turned down, a rate limit or a server error. Then the next
-- attempt is not such a failure, and the status is that of its answer, or the one reported if its
-- relay is cut; or, after two retries, the third attempt failed too and the status is 502; both name
-- a key. Or the pool turns the request away with 403, 429 or 503, and no key is named. In each wait
-- some reading of the clock is taken to be at or past the deadline; the other threads are taken to
-- leave the slots as they are, a key to have fewer than 2^32 slots, and the pin of the conversation,
-- if it has one, to be to a key of the pool.
pub proxy_keyed-Failover :
    (p : Pool) (identity : Option ℕ) (pinned_before : Bool) (now : ℕ) (rounds : List Round)
    (turns : List Turn)
    → Fits p
    → PinInRange p identity
    → All Steady rounds
    → Ends (now + wait_timeout) rounds
    → All Ending turns
    → 3 ≤ length turns
    → (q : Pool) × (out : Outcome) × (proxy_keyed p identity pinned_before now rounds turns
        ≡ some (q, out))
      × Failover turns out
proxy_keyed-Failover p identity pinned_before now rounds turns fits pins steady ends turns_end
      enough =
    let (q, out, e) =
      proxy_keyed-Returns p identity pinned_before now rounds turns fits pins steady ends turns_end
        enough in
    (
      q,
      out,
      e,
      Decided-Failover turns out
          (proxy_keyed-Decided p q identity pinned_before now rounds turns out e),
    )
