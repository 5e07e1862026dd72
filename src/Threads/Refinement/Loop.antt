-- ===== src/Threads/Refinement/Loop.antt =====
-- src/proxy.rs: a request is a run of a thread, from its admission to its end.
use ollamux.Base.{
  ℕ, suc, ◌+◌, ◌≡◌, refl, subst, Bool, true, false, Option, none, some, ◌>>=◌, List, [], ◌∷◌, All,
  leb, ltb, if◌then◌else◌,
}
use ollamux.Pool.{Pool}
use ollamux.Pool.Marks.{settle}
use ollamux.Pool.Admit.{Round, Admission, admitted, rejected, admit, admit_affine, release}
use ollamux.Proxy.{
  Attempt, sent, retryable, attempt, Outcome, affinity_header_value, pin_some, unpin_some, Turn,
  finish, next_turn, try_turn, attempts, proxy_keyed, wait_timeout, max_attempts,
}
use ollamux.Threads.{
  Pc, idle, admitting, attempting, answered, settled, failed, pins, answers, fails, settles,
  confirms, ends, unpins, retries, gives_up,
}
use ollamux.Threads.Refinement.{Run, stays, goes, yields, Run-trans, TurnWithin, RoundWithin}
use ollamux.Threads.Refinement.Admitting.{Admits, admit-Admits, admit_affine-Admits}

module _ (Others : Pool → Pool → Type 0) where
  -- The end of a request, if it ends.
  abbrev pub Ends : Pool → Pc → Option (Pool × Outcome) → Type 0
  Ends p pc none = Unit {0}
  Ends p pc (some (q, out)) = Run Others p pc q idle

  Ends-after :
      (p q : Pool) (pc pc' : Pc) (o : Option (Pool × Outcome))
      → Run Others p pc q pc'
      → Ends q pc' o
      → Ends p pc o
  Ends-after p q pc pc' none run h = tt
  Ends-after p q pc pc' (some (r, out)) run h = Run-trans run h

  released-Ends :
      (p r : Pool) (pc : Pc) (n key : ℕ) (out : Pool → Outcome) (o : Option Pool)
      → Run Others p pc r (settled n key)
      → release r key ≡ o
      → Ends p pc (◌>>=◌ {B = Pool × Outcome} o (λ s. some (s, out s)))
  released-Ends p r pc n key out none run e = tt
  released-Ends p r pc n key out (some s) run e = goes run (ends e)

  confirmed :
      (p q : Pool) (pc : Pc) (n key : ℕ) (identity : Option ℕ) (good : Bool)
      → Run Others p pc q (settled n key)
      → Run Others p pc (if good then pin_some identity key q else q) (settled n key)
  confirmed p q pc n key identity true run = goes run (confirms identity)
  confirmed p q pc n key identity false run = run

  abbrev outcome_of : Pool → ℕ → Option ℕ → Bool → ℕ → ℕ → Outcome
  outcome_of r key identity pinned_before status tries = record {
    status = status;
    retries = tries;
    key = some key;
    affinity = some (affinity_header_value pinned_before r.affinity_enabled identity);
  }

  settled-Ends :
      (p : Pool) (n key : ℕ) (identity : Option ℕ) (pinned_before : Bool) (status tries : ℕ)
      (o : Option Pool)
      → settle p key (ltb status 400) ≡ o
      → Ends p (answered n key status) (
          ◌>>=◌ {B = Pool × Outcome} o (λ q.
            (let r = if ltb status 300 then pin_some identity key q else q in
              release r key >>= λ s.
              some (s, outcome_of r key identity pinned_before status tries))))
  settled-Ends p n key identity pinned_before status tries none e = tt
  settled-Ends p n key identity pinned_before status tries (some q) e =
      let r = if ltb status 300 then pin_some identity key q else q in
      released-Ends p r (answered n key status) n key
        (λ s. outcome_of r key identity pinned_before status tries) (release r key)
        (confirmed p q (answered n key status) n key identity (ltb status 300)
          (goes stays (settles e)))
        refl

  finish-Ends :
      (p : Pool) (n key : ℕ) (identity : Option ℕ) (pinned_before : Bool) (status tries : ℕ)
      → Ends p (answered n key status) (finish p key identity pinned_before status tries)
  unfolding finish
  finish-Ends p n key identity pinned_before status tries =
      settled-Ends p n key identity pinned_before status tries (settle p key (ltb status 400)) refl

  next-Ends :
      (s : Pool) (n : ℕ) (again : ℕ → Pool → Option (Pool × Outcome)) (identity : Option ℕ)
      (o : Option (Pool × Admission))
      → ((k : ℕ) (q : Pool) → Ends q (attempting (suc n) k) (again k q))
      → Admits Others s (suc n) o
      → Ends s (admitting (suc n)) (o >>= next_turn again identity n)
  next-Ends s n again identity none next h = tt
  next-Ends s n again identity (some (u, admitted k)) next h =
      Ends-after s (pin_some identity k u) (admitting (suc n)) (attempting (suc n) k)
        (again k (pin_some identity k u)) (goes h (pins identity)) (next k (pin_some identity k u))
  next-Ends s n again identity (some (u, rejected rej)) next h = h

  retried-Ends :
      (p : Pool) (n key : ℕ) (again : ℕ → Pool → Option (Pool × Outcome)) (identity : Option ℕ)
      (t : Turn) (last : Bool) (o : Option Pool)
      → leb max_attempts (n + 1) ≡ last
      → release p key ≡ o
      → All (RoundWithin Others) t.rounds
      → ((k : ℕ) (q : Pool) → Ends q (attempting (suc n) k) (again k q))
      → Ends p (failed n key) (
          ◌>>=◌ {B = Pool × Outcome} o (λ s.
            if last
            then some (s, record { status = 502; retries = n; key = some key; affinity = none })
            else (admit s wait_timeout t.now t.rounds >>= next_turn again identity n)))
  retried-Ends p n key again identity t last none l e h next = tt
  retried-Ends p n key again identity t true (some s) l e h next = goes stays (gives_up l e)
  retried-Ends p n key again identity t false (some s) l e h next =
      Ends-after p s (failed n key) (admitting (suc n))
        (admit s wait_timeout t.now t.rounds >>= next_turn again identity n)
        (goes stays (retries l e))
        (next-Ends s n again identity (admit s wait_timeout t.now t.rounds) next
          (admit-Admits Others s (suc n) wait_timeout t.now t.rounds h))

  attempted-Ends :
      (p : Pool) (n key : ℕ) (again : ℕ → Pool → Option (Pool × Outcome)) (identity : Option ℕ)
      (pinned_before : Bool) (t : Turn) (o : Option (Pool × Attempt))
      → attempt p key t.upstream t.delivery t.now ≡ o
      → All (RoundWithin Others) t.rounds
      → ((k : ℕ) (q : Pool) → Ends q (attempting (suc n) k) (again k q))
      → Ends p (attempting n key) (
          ◌>>=◌ {B = Pool × Outcome} o (λ (q, result). elim result [
            | sent status ↦ finish q key identity pinned_before status n
            | retryable reason ↦ release (unpin_some identity key q) key >>= λ s.
                if leb max_attempts (n + 1)
                then some (s, record { status = 502; retries = n; key = some key; affinity = none })
                else (admit s wait_timeout t.now t.rounds >>= next_turn again identity n)
          ]))
  attempted-Ends p n key again identity pinned_before t none e h next = tt
  attempted-Ends p n key again identity pinned_before t (some (q, sent status)) e h next =
      Ends-after p q (attempting n key) (answered n key status)
        (finish q key identity pinned_before status n)
        (goes stays (answers t.upstream t.delivery t.now e))
        (finish-Ends q n key identity pinned_before status n)
  attempted-Ends p n key again identity pinned_before t (some (q, retryable reason)) e h next =
      let u = unpin_some identity key q in
      Ends-after p u (attempting n key) (failed n key) _
        (goes (goes stays (fails t.upstream t.delivery t.now reason e)) (unpins identity))
        (retried-Ends u n key again identity t (leb max_attempts (n + 1)) (release u key) refl refl
          h next)

  try_turn-Ends :
      (p : Pool) (n key : ℕ) (again : ℕ → Pool → Option (Pool × Outcome)) (identity : Option ℕ)
      (pinned_before : Bool) (t : Turn)
      → TurnWithin Others t
      → ((k : ℕ) (q : Pool) → Ends q (attempting (suc n) k) (again k q))
      → Ends p (attempting n key) (try_turn again identity pinned_before key n t p)
  unfolding try_turn
  try_turn-Ends p n key again identity pinned_before t (others, rounds) next =
      Ends-after p (t.others p) (attempting n key) (attempting n key) _ (yields stays (others p)) (
        attempted-Ends (t.others p) n key again identity pinned_before t
          (attempt (t.others p) key t.upstream t.delivery t.now) refl rounds next)

  attempts-Ends :
      (p : Pool) (n key : ℕ) (identity : Option ℕ) (pinned_before : Bool) (turns : List Turn)
      → All (TurnWithin Others) turns
      → Ends p (attempting n key) (attempts identity pinned_before key n turns p)
  unfolding attempts
  attempts-Ends p n key identity pinned_before [] h = tt
  attempts-Ends p n key identity pinned_before (t ∷ ts) (h, hs) =
      try_turn-Ends p n key (λ k q. attempts identity pinned_before k (suc n) ts q) identity
        pinned_before t h (λ k q. attempts-Ends q (suc n) k identity pinned_before ts hs)

  admitted-Ends :
      (p : Pool) (identity : Option ℕ) (pinned_before : Bool) (turns : List Turn)
      (o : Option (Pool × Admission))
      → All (TurnWithin Others) turns
      → Admits Others p 0 o
      → Ends p (admitting 0) (
          ◌>>=◌ {B = Pool × Outcome} o (λ (q, first). elim first [
            | admitted key ↦ attempts identity pinned_before key 0 turns q
            | rejected rej ↦
                some (q, record { status = rej.status; retries = 0; key = none; affinity = none })
          ]))
  admitted-Ends p identity pinned_before turns none h a = tt
  admitted-Ends p identity pinned_before turns (some (q, admitted key)) h a =
      Ends-after p q (admitting 0) (attempting 0 key)
        (attempts identity pinned_before key 0 turns q) a
        (attempts-Ends q 0 key identity pinned_before turns h)
  admitted-Ends p identity pinned_before turns (some (q, rejected rej)) h a = a

  proxy_keyed-Ends :
      (p : Pool) (identity : Option ℕ) (pinned_before : Bool) (now : ℕ) (rounds : List Round)
      (turns : List Turn)
      → All (RoundWithin Others) rounds
      → All (TurnWithin Others) turns
      → Ends p (admitting 0) (proxy_keyed p identity pinned_before now rounds turns)
  unfolding proxy_keyed
  proxy_keyed-Ends p identity pinned_before now rounds turns r t =
      admitted-Ends p identity pinned_before turns (admit_affine p wait_timeout identity now rounds)
        t (admit_affine-Admits Others p 0 wait_timeout identity now rounds r)

  -- The request loop is one thread of the program: whatever the other threads do to the pool while it
  -- waits for a slot or for the upstream, a request that ends has gone from the start of its admission
  -- to the end of the request by moves of one thread, and nothing but the other threads has changed
  -- the pool between two of them.
  pub proxy_keyed-Run :
      (p q : Pool) (identity : Option ℕ) (pinned_before : Bool) (now : ℕ) (rounds : List Round)
      (turns : List Turn) (out : Outcome)
      → All (RoundWithin Others) rounds
      → All (TurnWithin Others) turns
      → proxy_keyed p identity pinned_before now rounds turns ≡ some (q, out)
      → Run Others p (admitting 0) q idle
  proxy_keyed-Run p q identity pinned_before now rounds turns out r t e =
      subst (Ends p (admitting 0)) e
        (proxy_keyed-Ends p identity pinned_before now rounds turns r t)
