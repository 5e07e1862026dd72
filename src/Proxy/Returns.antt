-- ===== src/Proxy/Returns.antt =====
-- src/proxy.rs: a request comes to an end, within three attempts.
use ollamux.Base.{
  ℕ, suc, ◌+◌, ◌≤◌, ◌≡◌, refl, ap, ◌∙◌, Bool, false, Option, some, ◌>>=◌, List, [], ◌∷◌, All,
  length, ltb, leb, ◌==◌, ◌&&◌, if◌then◌else◌, Bool-cases, inl, inr, ◌⊎◌, arith, Text,
}
use ollamux.Pool.{Pool}
use ollamux.Pool.Marks.{
  on_health, settle, confirm, remember, die, cool, strike, mark_dead, mark_cooldown, mark_strike,
}
use ollamux.Pool.Admit.{
  Round, Reject, Admission, admitted, rejected, admit, admit_affine, release, free_slot,
}
use ollamux.Pool.Admit.Slots.{Ends}
use ollamux.Pool.Admit.Held.{
  Fits, SameSlots, Takes, same_states, Fits-SameSlots, Takes-SameSlots, SameSlots-Takes,
  release-SameSlots,
}
use ollamux.Pool.Admit.Conservation.{Steady}
use ollamux.Pool.Admit.Balance.{admit-AdmissionTakes}
use ollamux.Pool.Admit.Affine.{admit_affine-AdmissionTakes}
use ollamux.Pool.Admit.Returns.{InRange, InRange-SameSlots, Returns, modify-Returns}
use ollamux.Pool.Admit.Progress.{admit-Returns, admit_affine-Returns, PinInRange}
use ollamux.Proxy.{
  Upstream, success, error_status, no_answer, Delivery, Attempt, sent, retryable, relay,
  is_unauthorized, classify, attempt, Outcome, pin_some, unpin_some, Turn, finish, next_turn,
  try_turn, attempts, proxy_keyed, wait_timeout, max_attempts,
}
use ollamux.Proxy.Slots.{
  SteadyTurn, settle-SameSlots, attempt-Keeps, pin_some-states, unpin_some-states,
}

pub bind-Returns :
    {A B : Type 0}
    → (o : Option A) (f : A → Option B) → Returns o
    → ((a : A) → o ≡ some a → Returns (f a))
    → Returns (o >>= f)
bind-Returns o f (a, e) h = rw e (h a e)

marked-Returns :
    (o : Option Pool) (b : Attempt)
    → Returns o
    → Returns (◌>>=◌ {B = Pool × Attempt} o (λ r. some (r, b)))
marked-Returns o b (q, e) = ((q, b), rw e refl)

mark_dead-Returns :
    (p : Pool) (key : ℕ) (reason : Text) → InRange p key → Returns (mark_dead p key reason)
unfolding mark_dead
mark_dead-Returns p key reason inside = modify-Returns p key (on_health (die reason)) inside

mark_cooldown-Returns :
    (p : Pool) (key dur : ℕ) (reason : Text) (now : ℕ)
    → InRange p key
    → Returns (mark_cooldown p key dur reason now)
unfolding mark_cooldown
mark_cooldown-Returns p key dur reason now inside =
    modify-Returns p key (on_health (cool now dur reason)) inside

mark_strike-Returns :
    (p : Pool) (key : ℕ) (reason : Text) (now : ℕ)
    → InRange p key
    → Returns (mark_strike p key reason now)
unfolding mark_strike
mark_strike-Returns p key reason now inside =
    modify-Returns p key (on_health (strike now reason)) inside

pub settle-Returns : (p : Pool) (key : ℕ) (ok : Bool) → InRange p key → Returns (settle p key ok)
unfolding settle
settle-Returns p key ok inside =
    let (q, made) = modify-Returns p key (on_health (confirm ok)) inside in
    (remember ok key q, ground arith)

pub release-Returns : (p : Pool) (key : ℕ) → InRange p key → Returns (release p key)
unfolding release
release-Returns p key inside = modify-Returns p key free_slot inside

classify-Returns :
    (p : Pool) (key status : ℕ) (retry_after : Option ℕ) (snip : Text) (out : Delivery) (now : ℕ)
    → InRange p key
    → Returns (classify p key status retry_after snip out now)
unfolding classify
classify-Returns p key status retry_after snip out now inside =
    elim (Bool-cases (is_unauthorized status snip)) [
      | inl e ↦ rw e (marked-Returns _ _ (mark_dead-Returns p key _ inside))
      | inr e ↦ elim (Bool-cases (status == 429)) [
        | inl f ↦ rw (e, f) (marked-Returns _ _ (mark_cooldown-Returns p key _ _ now inside))
        | inr f ↦ elim (Bool-cases (leb 500 status && leb status 599)) [
          | inl g ↦ rw (e, f, g) (marked-Returns _ _ (mark_strike-Returns p key _ now inside))
          | inr g ↦ rw (e, f, g) ((p, relay status out), refl)
        ]
      ]
    ]

pub attempt-Returns :
    (p : Pool) (key : ℕ) (u : Upstream) (out : Delivery) (now : ℕ)
    → InRange p key
    → Returns (attempt p key u out now)
unfolding attempt
attempt-Returns p key (success status) out now inside = ((p, relay status out), refl)
attempt-Returns p key (error_status status retry_after snip) out now inside =
    classify-Returns p key status retry_after snip out now inside
attempt-Returns p key (no_answer e) out now inside = (_, refl)

finish-Returns :
    (p : Pool) (key : ℕ) (identity : Option ℕ) (pinned_before : Bool) (status retries : ℕ)
    → InRange p key
    → Returns (finish p key identity pinned_before status retries)
unfolding finish
finish-Returns p key identity pinned_before status retries inside =
    bind-Returns (settle p key (ltb status 400)) _ (settle-Returns p key (ltb status 400) inside)
      λ q settled.
        let q' = if ltb status 300 then pin_some identity key q else q in
        let same : q'.states ≡ q.states = ground (arith, pin_some-states identity key q) in
        let inside' =
          InRange-SameSlots q q' key
            (InRange-SameSlots p q key inside (settle-SameSlots p q key (ltb status 400) settled))
            (same_states q q' same) in
        bind-Returns (release q' key) _ (release-Returns q' key inside') λ s freed. (_, refl)

Takes-InRange : (o p : Pool) (key : ℕ) → Takes o p key → InRange p key
Takes-InRange o p key (held, slots, before, free, now, rest) = ((held + 1, slots), now)

-- A turn in which the other threads leave the slots as they are, and a wait ends.
abbrev pub Ending : Turn → Type 0
Ending t = SteadyTurn t × Ends (t.now + wait_timeout) t.rounds

pub Attempt-cases :
    (a : Attempt) → ((status : ℕ) × (a ≡ sent status)) ⊎ ((reason : Text) × (a ≡ retryable reason))
Attempt-cases (sent status) = inl (status, refl)
Attempt-cases (retryable reason) = inr (reason, refl)

Admission-cases :
    (a : Admission) → ((key : ℕ) × (a ≡ admitted key)) ⊎ ((rej : Reject) × (a ≡ rejected rej))
Admission-cases (admitted key) = inl (key, refl)
Admission-cases (rejected rej) = inr (rej, refl)

-- The rotation to another key.
next_turn-Returns :
    (o s : Pool) (again : ℕ → Pool → Option (Pool × Outcome)) (identity : Option ℕ)
    (retries now : ℕ) (rounds : List Round) (r : Pool × Admission)
    → Fits o
    → All Steady rounds
    → SameSlots o s
    → ((q : Pool) (k : ℕ) → Takes o q k → Returns (again k q))
    → admit s wait_timeout now rounds ≡ some r
    → Returns (next_turn again identity retries r)
next_turn-Returns o s again identity retries now rounds (u, admitted k) fits steady same next ran =
    let takes = SameSlots-Takes o s u k same (
      admit-AdmissionTakes s u wait_timeout now rounds (admitted k) (Fits-SameSlots o s fits same)
        steady ran) in
    let v = pin_some identity k u in
    next v k (Takes-SameSlots o u v k takes (same_states u v (pin_some-states identity k u)))
next_turn-Returns o s again identity retries now rounds (u, rejected rej) fits steady same next
      ran =
    (_, refl)

try_turn-Returns :
    (o p : Pool) (again : ℕ → Pool → Option (Pool × Outcome)) (identity : Option ℕ)
    (pinned_before : Bool) (key retries : ℕ) (t : Turn)
    → Fits o
    → Ending t
    → Takes o p key
    → (leb max_attempts (retries + 1) ≡ false
        → (q : Pool) (k : ℕ) → Takes o q k
        → Returns (again k q))
    → Returns (try_turn again identity pinned_before key retries t p)
unfolding try_turn
try_turn-Returns o p again identity pinned_before key retries t fits ((steady, rounds), ends) takes
      more =
    let here = t.others p in
    let takes_here = Takes-SameSlots o p here key takes (steady p) in
    bind-Returns (attempt here key t.upstream t.delivery t.now) _
      (attempt-Returns here key t.upstream t.delivery t.now (Takes-InRange o here key takes_here))
      λ r ran.
        let takes_r =
          Takes-SameSlots o here r.0 key takes_here
            (attempt-Keeps here key t.upstream t.delivery t.now r.0 r.1 ran) in
        elim (Attempt-cases r.1) [
          | inl (status, is_sent) ↦ rw is_sent (
              finish-Returns r.0 key identity pinned_before status retries
                (Takes-InRange o r.0 key takes_r))
          | inr (reason, failed) ↦
              let q = unpin_some identity key r.0 in
              let takes_q =
                Takes-SameSlots o r.0 q key takes_r
                  (same_states r.0 q (unpin_some-states identity key r.0)) in
              rw failed (
                bind-Returns (release q key) _
                  (release-Returns q key (Takes-InRange o q key takes_q))
                  λ s freed.
                    let same = release-SameSlots o q s key takes_q freed in
                    elim (Bool-cases (leb max_attempts (retries + 1))) [
                      | inl last ↦ rw last (_, refl)
                      | inr another ↦ rw another (
                          bind-Returns (admit s wait_timeout t.now t.rounds)
                            (next_turn again identity retries)
                            (admit-Returns s wait_timeout t.now t.rounds
                              (Fits-SameSlots o s fits same) rounds ends)
                            λ u admission.
                              next_turn-Returns o s again identity retries t.now t.rounds u fits
                                rounds same (more another) admission)
                    ])
        ]

attempts-Returns :
    (o : Pool) (identity : Option ℕ) (pinned_before : Bool) (retries : ℕ) (turns : List Turn)
    (p : Pool) (key : ℕ)
    → Fits o
    → All Ending turns
    → retries + 1 ≤ 3
    → 3 ≤ retries + length turns
    → Takes o p key
    → Returns (attempts identity pinned_before key retries turns p)
unfolding attempts
attempts-Returns o identity pinned_before retries [] p key fits ends few enough takes =
    absurd (omega arith)
attempts-Returns o identity pinned_before retries (t ∷ ts) p key fits ends few enough takes =
    try_turn-Returns o p (λ k q. attempts identity pinned_before k (suc retries) ts q) identity
      pinned_before key retries t fits ends.0 takes
      λ another q k taken.
        attempts-Returns o identity pinned_before (suc retries) ts q k fits ends.1 (ground arith)
          (omega arith) taken

-- A request with a key to its name comes to an end: granted three turns, it returns an answer, the
-- last failure or a rejection. In each wait some reading of the clock is taken to be at or past the
-- deadline; the other threads are taken to leave the slots as they are, a key to have fewer than
-- 2^32 slots, and the pin of the conversation, if it has one, to be to a key of the pool.
pub proxy_keyed-Returns :
    (p : Pool) (identity : Option ℕ) (pinned_before : Bool) (now : ℕ) (rounds : List Round)
    (turns : List Turn)
    → Fits p
    → PinInRange p identity
    → All Steady rounds
    → Ends (now + wait_timeout) rounds
    → All Ending turns
    → 3 ≤ length turns
    → (q : Pool) × (out : Outcome) × (proxy_keyed p identity pinned_before now rounds turns
        ≡ some (q, out))
unfolding proxy_keyed
proxy_keyed-Returns p identity pinned_before now rounds turns fits pins steady ends turns_end
      enough =
    let ((q, out), e) =
      bind-Returns (admit_affine p wait_timeout identity now rounds) _
        (admit_affine-Returns p wait_timeout identity now rounds fits steady ends pins)
        λ r ran. elim (Admission-cases r.1) [
          | inl (key, given) ↦ rw given (
              attempts-Returns p identity pinned_before 0 turns r.0 key fits turns_end
                (ground arith) (omega arith)
                (admit_affine-AdmissionTakes p r.0 wait_timeout identity now rounds (admitted key)
                  fits steady (ran ∙ ap (λ a. some (r.0, a)) given)))
          | inr (rej, refused) ↦ rw refused (_, refl)
        ] in
    (q, out, e)
