-- ===== src/Proxy/Rotation.antt =====
-- src/proxy.rs: the key of the next attempt is not one that was just turned down or rate-limited.
use ollamux.Base.{
  ℕ, zero, suc, ◌+◌, ◌≡◌, ◌≢◌, refl, sym, ap, ◌∙◌, Bool, true, false, Option, none, some, ◌>>=◌,
  List, [], ◌∷◌, get_elem?, ltb, leb, ◌==◌, ◌&&◌, ◌||◌, Bool-cases, inl, inr, arith, Text, codes,
  ◌++◌, subst,
}
use mathlib.Core.Bool.{false≢true}
use ollamux.Pool.{Health, KeyState, Pool, modify, observe}
use ollamux.Pool.Marks.{on_health, die, cool, mark_dead, mark_cooldown}
use ollamux.Pool.Marks.Laws.{modify-frame}
use ollamux.Pool.Select.{is_up}
use ollamux.Pool.Select.Laws.{selectable}
use ollamux.Pool.Admit.{Round, Admission, admitted, rejected, admit, release, free_slot}
use ollamux.Pool.Admit.Admitted.{admit-selectable}
use ollamux.Proxy.{
  Upstream, success, error_status, no_answer, Delivery, Attempt, retryable, is_unauthorized,
  cooldown_of, classify, attempt, Outcome, pin_some, unpin_some, Turn, next_turn, try_turn,
  wait_timeout, max_attempts,
}
use ollamux.Proxy.Returns.{Attempt-cases}
use ollamux.Proxy.Slots.{unpin_some-states}

-- A `Retry-After` that asks for some time, or none at all.
abbrev pub asks_time : Option ℕ → Bool
asks_time none = true
asks_time (some s) = ltb 0 s

-- The answer takes the key out of service: it is turned down, or rate-limited for some time.
abbrev pub excludes : Upstream → Bool
excludes (success status) = false
excludes (error_status status retry_after snip) =
    is_unauthorized status snip || (status == 429 && asks_time retry_after)
excludes (no_answer e) = false

asks_time-cooldown_of :
    (retry_after : Option ℕ) → asks_time retry_after ≡ true → ltb 0 (cooldown_of retry_after) ≡ true
unfolding cooldown_of
asks_time-cooldown_of none h = ground arith
asks_time-cooldown_of (some s) h = ground arith

-- The key is in the pool and cannot be selected at `now`.
abbrev Excluded : Pool → ℕ → ℕ → Type 0
Excluded p key now =
    (ks : KeyState) × (get_elem? p.states key ≡ some ks)
    × (is_up (observe ks.health now).state ≡ false)

selectable-get :
    (ss : List KeyState) (now key : ℕ) (ks : KeyState)
    → get_elem? ss key ≡ some ks
    → selectable ss now key ≡ is_up (observe ks.health now).state
selectable-get [] now key ks e = absurd (ground arith)
selectable-get (k ∷ ss) now zero ks e = ground arith
selectable-get (k ∷ ss) now (suc key) ks e = selectable-get ss now key ks e

modify-Excluded :
    (p q : Pool) (key now : ℕ) (f : Health → Health)
    → ((h : Health) → is_up (observe (f h) now).state ≡ false)
    → modify p key (on_health f) ≡ some q
    → Excluded q key now
modify-Excluded p q key now f down e =
    let (ks, found, here, len, others) = modify-frame p q key (on_health f) e in
    (on_health f ks, here, down ks.health)

release-Excluded :
    (p q : Pool) (key now : ℕ) → Excluded p key now → release p key ≡ some q → Excluded q key now
unfolding release
release-Excluded p q key now (ks, there, down) e =
    let (k, found, here, len, others) = modify-frame p q key free_slot e in
    let same : ks ≡ k = ground arith in
    (free_slot ks, here ∙ ap (λ x. some (free_slot x)) (sym same), down)

die-down : (reason : Text) (h : Health) (now : ℕ) → is_up (observe (die reason h) now).state ≡ false
unfolding die observe
die-down reason h now = refl

cool-down :
    (now dur : ℕ) (reason : Text) (h : Health)
    → ltb 0 dur ≡ true
    → is_up (observe (cool now dur reason h) now).state ≡ false
unfolding cool observe
cool-down now dur reason h some_time = ground arith

marked-eq :
    (o : Option Pool) (b a : Attempt) (q : Pool)
    → (◌>>=◌ {B = Pool × Attempt} o (λ r. some (r, b))) ≡ some (q, a)
    → o ≡ some q
marked-eq none b a q e = absurd (ground arith)
marked-eq (some r) b a q e = ground arith

classify-Excluded :
    (p q : Pool) (key status : ℕ) (retry_after : Option ℕ) (snip : Text) (out : Delivery) (now : ℕ)
    (a : Attempt)
    → excludes (error_status status retry_after snip) ≡ true
    → classify p key status retry_after snip out now ≡ some (q, a)
    → Excluded q key now
unfolding classify mark_dead mark_cooldown
classify-Excluded p q key status retry_after snip out now a h e =
    elim (Bool-cases (is_unauthorized status snip)) [
      | inl u ↦
          modify-Excluded p q key now (die (codes "upstream says unauthorized"))
            (λ x. die-down _ x now)
            (marked-eq (mark_dead p key (codes "upstream says unauthorized"))
              (retryable (codes "unauthorized: " ++ snip)) a q (ground arith))
      | inr u ↦
          modify-Excluded p q key now (cool now (cooldown_of retry_after) (codes "429: " ++ snip))
            (λ x.
              cool-down now (cooldown_of retry_after) _ x
                (asks_time-cooldown_of retry_after (ground arith)))
            (marked-eq (mark_cooldown p key (cooldown_of retry_after) (codes "429: " ++ snip) now)
              (retryable (codes "429: " ++ snip)) a q (ground arith))
    ]

attempt-Excluded :
    (p q : Pool) (key : ℕ) (u : Upstream) (out : Delivery) (now : ℕ) (a : Attempt)
    → excludes u ≡ true
    → attempt p key u out now ≡ some (q, a)
    → Excluded q key now
unfolding attempt
attempt-Excluded p q key (success status) out now a h e = cc
attempt-Excluded p q key (error_status status retry_after snip) out now a h e =
    classify-Excluded p q key status retry_after snip out now a h e
attempt-Excluded p q key (no_answer x) out now a h e = cc

admit-Excluded :
    (p q : Pool) (key now timeout : ℕ) (rounds : List Round) (k : ℕ)
    → Excluded p key now
    → admit p timeout now rounds ≡ some (q, admitted k)
    → k ≢ key
admit-Excluded p q key now timeout rounds k (ks, found, down) e same =
    let on = admit-selectable p q timeout now rounds k e in
    let off = selectable-get p.states now key ks found ∙ down in
    false≢true (sym off ∙ subst (λ i. selectable p.states now i ≡ true) same on)

next_turn-rotates :
    (again again' : ℕ → Pool → Option (Pool × Outcome)) (identity : Option ℕ) (key retries : ℕ)
    (t : Turn) (s : Pool) (r : Pool × Admission)
    → Excluded s key t.now
    → ((k : ℕ) (q : Pool) → k ≢ key → again k q ≡ again' k q)
    → admit s wait_timeout t.now t.rounds ≡ some r
    → next_turn again identity retries r ≡ next_turn again' identity retries r
next_turn-rotates again again' identity key retries t s (u, admitted k) out agree ran =
    agree k (pin_some identity k u) (admit-Excluded s u key t.now wait_timeout t.rounds k out ran)
next_turn-rotates again again' identity key retries t s (u, rejected rej) out agree ran = refl

bind-agree :
    {A B : Type 0}
    → (o : Option A) (f g : A → Option B) → ((a : A) → o ≡ some a → f a ≡ g a)
    → (o >>= f) ≡ (o >>= g)
bind-agree none f g h = refl
bind-agree (some a) f g h = h a refl

-- After an answer that turns the key down, or a 429 without a `Retry-After` or with one above zero,
-- the next attempt is on another key: the pass of the loop ends the same whatever the next pass
-- would do on this key.
pub try_turn-rotates :
    (again again' : ℕ → Pool → Option (Pool × Outcome)) (identity : Option ℕ) (pinned_before : Bool)
    (key retries : ℕ) (t : Turn) (p : Pool)
    → excludes t.upstream ≡ true
    → ((k : ℕ) (q : Pool) → k ≢ key → again k q ≡ again' k q)
    → try_turn again identity pinned_before key retries t p
      ≡ try_turn again' identity pinned_before key retries t p
unfolding try_turn
try_turn-rotates again again' identity pinned_before key retries t p h agree =
    bind-agree (attempt (t.others p) key t.upstream t.delivery t.now) _ _
      λ (r : Pool × Attempt) ran.
        let out : Excluded r.0 key t.now =
          attempt-Excluded (t.others p) r.0 key t.upstream t.delivery t.now r.1 h ran in
        elim (Attempt-cases r.1) [
          | inl (status, is_sent) ↦ rw is_sent refl
          | inr (reason, failed) ↦ rw failed (
              bind-agree (release (unpin_some identity key r.0) key) _ _ λ s freed.
                let (ks, there, down) = out in
                let out_s : Excluded s key t.now =
                  release-Excluded (unpin_some identity key r.0) s key t.now
                    (
                      ks,
                      ap (λ ss. get_elem? ss key) (unpin_some-states identity key r.0) ∙ there,
                      down,
                    )
                    freed in
                elim (Bool-cases (leb max_attempts (retries + 1))) [
                  | inl last ↦ rw last refl
                  | inr more ↦ rw more (
                      bind-agree (admit s wait_timeout t.now t.rounds) _ _ λ a given.
                        next_turn-rotates again again' identity key retries t s a out_s agree given)
                ])
        ]
