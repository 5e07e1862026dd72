-- ===== src/Proxy/Failover/Answers.antt =====
-- src/proxy.rs: what an attempt makes of the answer of the upstream.
use ollamux.Base.{
  ℕ, ◌≡◌, refl, Bool, true, false, Option, none, some, ◌>>=◌, leb, ◌==◌, ◌&&◌, ◌||◌, Bool-cases,
  inl, inr, arith, Text,
}
use ollamux.Pool.{Pool}
use ollamux.Proxy.{
  Upstream, success, error_status, no_answer, Delivery, delivered, cut, Attempt, sent, retryable,
  relay, is_unauthorized, classify, attempt,
}

-- An attempt after which another key is tried: no answer, a key that is turned down, a rate limit
-- or an error of the server.
abbrev pub fails : Upstream → Bool
fails (success status) = false
fails (error_status status retry_after snip) =
    is_unauthorized status snip || (status == 429 || (leb 500 status && leb status 599))
fails (no_answer e) = true

-- The status that the client is shown of an answer.
abbrev pub shown : Upstream → Delivery → ℕ
shown (success status) delivered = status
shown (error_status status retry_after snip) delivered = status
shown (no_answer e) delivered = 502
shown u (cut reported) = reported

-- What an attempt says of the answer.
abbrev pub Reads : Upstream → Delivery → Attempt → Type 0
Reads u out (sent status) = (fails u ≡ false) × (status ≡ shown u out)
Reads u out (retryable reason) = fails u ≡ true

abbrev pub AllRead : Upstream → Delivery → Option (Pool × Attempt) → Type 0
AllRead u out o = (q : Pool) (a : Attempt) → o ≡ some (q, a) → Reads u out a

marked-AllRead :
    (u : Upstream) (out : Delivery) (o : Option Pool) (reason : Text)
    → fails u ≡ true
    → AllRead u out (◌>>=◌ {B = Pool × Attempt} o (λ r. some (r, retryable reason)))
marked-AllRead u out none reason h q a e = absurd (ground arith)
marked-AllRead u out (some r) reason h q (sent s) e = absurd (ground arith)
marked-AllRead u out (some r) reason h q (retryable s) e = h

error-AllRead :
    (p : Pool) (status : ℕ) (retry_after : Option ℕ) (snip : Text) (out : Delivery)
    → fails (error_status status retry_after snip) ≡ false
    → AllRead (error_status status retry_after snip) out (some (p, relay status out))
error-AllRead p status retry_after snip delivered h q (sent s) e = (h, ground arith)
error-AllRead p status retry_after snip delivered h q (retryable s) e = absurd (ground arith)
error-AllRead p status retry_after snip (cut r) h q (sent s) e = (h, ground arith)
error-AllRead p status retry_after snip (cut r) h q (retryable s) e = absurd (ground arith)

success-AllRead :
    (p : Pool) (status : ℕ) (out : Delivery)
    → AllRead (success status) out (some (p, relay status out))
success-AllRead p status delivered q (sent s) e = (refl, ground arith)
success-AllRead p status delivered q (retryable s) e = absurd (ground arith)
success-AllRead p status (cut r) q (sent s) e = (refl, ground arith)
success-AllRead p status (cut r) q (retryable s) e = absurd (ground arith)

classify-AllRead :
    (p : Pool) (key status : ℕ) (retry_after : Option ℕ) (snip : Text) (out : Delivery) (now : ℕ)
    → AllRead
        (error_status status retry_after snip)
        out
        (classify p key status retry_after snip out now)
unfolding classify
classify-AllRead p key status retry_after snip out now =
    let u = error_status status retry_after snip in
    elim (Bool-cases (is_unauthorized status snip)) [
      | inl e ↦ rw e (marked-AllRead u out _ _ (rw e refl))
      | inr e ↦ elim (Bool-cases (status == 429)) [
        | inl f ↦ rw (e, f) (marked-AllRead u out _ _ (rw (e, f) refl))
        | inr f ↦ elim (Bool-cases (leb 500 status && leb status 599)) [
          | inl g ↦ rw (e, f, g) (marked-AllRead u out _ _ (rw (e, f, g) refl))
          | inr g ↦ rw (e, f, g) (error-AllRead p status retry_after snip out (rw (e, f, g) refl))
        ]
      ]
    ]

pub attempt-AllRead :
    (p : Pool) (key : ℕ) (u : Upstream) (out : Delivery) (now : ℕ)
    → AllRead u out (attempt p key u out now)
unfolding attempt
attempt-AllRead p key (success status) out now q a h = success-AllRead p status out q a h
attempt-AllRead p key (error_status status retry_after snip) out now q a h =
    classify-AllRead p key status retry_after snip out now q a h
attempt-AllRead p key (no_answer e) out now q (sent s) h = absurd (ground arith)
attempt-AllRead p key (no_answer e) out now q (retryable s) h = refl
