-- ===== src/Proxy/Stream/Delivered.antt =====
-- src/proxy.rs: what `stream_body` sends, to a client that stays and to one that goes.
use mathlib.Core.List.{append_assoc, append-nil}
use ollamux.Base.{
  ℕ, zero, suc, ◌-◌, ◌≤◌, ◌<◌, ◌≡◌, refl, sym, ap, ◌∙◌, Bool, true, false, some, List, [], ◌∷◌,
  ◌++◌, All, min, length, length-append, take, if◌then◌else◌, arith,
}
use ollamux.Proxy.Stream.{
  chunk_size, Wire, write_all, write_each, frame, last_chunk, terminate, Read, bytes, died,
  stream_body,
}
use ollamux.Proxy.Stream.Chunks.{decode, framed, one_chunk, concat, IsChunk, decode-framed}

-- A connection on which every write succeeds.
abbrev pub good : List ℕ → Wire
good sent = record { sent = sent; writes = [] }

pub take-all : (n : ℕ) (bs : List ℕ) → length bs ≤ n → take n bs ≡ bs
take-all zero [] h = refl
take-all zero (b ∷ bs) h = absurd (omega arith)
take-all (suc n) [] h = refl
take-all (suc n) (b ∷ bs) h = ap (λ r. b ∷ r) (take-all n bs (omega arith))

write_each-chunked :
    (sent bs : List ℕ)
    → write_each (good sent) (frame false bs) ≡ (good (sent ++ one_chunk bs []), true)
unfolding write_each frame
write_each-chunked sent bs = simp (append_assoc, append-nil)

terminate-chunked : (sent : List ℕ) → terminate false (good sent) ≡ good (sent ++ last_chunk)
unfolding terminate write_all
terminate-chunked sent = simp (append_assoc, append-nil)

write_each-raw :
    (sent bs : List ℕ) → write_each (good sent) (frame true bs) ≡ (good (sent ++ bs), true)
unfolding write_each frame
write_each-raw sent bs = simp (append_assoc, append-nil)

-- The answer of an upstream that ends after these chunks, or dies after them.
abbrev pub reads_of : List (List ℕ) → Bool → List Read
reads_of [] dies = (if dies then died else bytes []) ∷ []
reads_of (bs ∷ more) dies = bytes bs ∷ reads_of more dies

abbrev pub status_of : ℕ → Bool → ℕ
status_of status dies = if dies then 502 else status

stream_body-step :
    (http10 : Bool) (status left : ℕ) (bs : List ℕ) (reads : List Read) (w : Wire)
    → IsChunk bs
    → length bs < left
    → write_each w (frame http10 bs) ≡ ((write_each w (frame http10 bs)).0, true)
    → stream_body http10 status left (bytes bs ∷ reads) w
      ≡ stream_body http10 status (left - length bs) reads (write_each w (frame http10 bs)).0
unfolding stream_body
stream_body-step http10 status left (b ∷ bs) reads w h k e =
    let e' : (write_each w (frame http10 (b ∷ bs))).1 ≡ true = ap (λ x. x.1) e in
    rw (take-all (min chunk_size left) (b ∷ bs) (ground arith), e') refl
stream_body-step http10 status left [] reads w h k e = absurd (omega arith)

one_chunk-append : (bs t : List ℕ) → one_chunk bs [] ++ t ≡ one_chunk bs t
one_chunk-append bs t = simp append_assoc

stream_body-last :
    (http10 : Bool) (status left : ℕ) (dies : Bool) (w : Wire)
    → 1 ≤ left
    → stream_body http10 status left (reads_of [] dies) w
      ≡ some (terminate http10 w, status_of status dies)
unfolding stream_body
stream_body-last http10 status left true w h = ground arith
stream_body-last http10 status left false w h =
    rw (take-all (min chunk_size left) [] (omega arith)) refl

stream_body-chunked :
    (status left : ℕ) (chunks : List (List ℕ)) (dies : Bool) (sent : List ℕ)
    → All IsChunk chunks
    → length (concat chunks) < left
    → stream_body false status left (reads_of chunks dies) (good sent)
      ≡ some (good (sent ++ framed chunks []), status_of status dies)
stream_body-chunked status left [] dies sent h k =
    stream_body-last false status left dies (good sent) (omega arith)
    ∙ ap (λ w. some (w, status_of status dies)) (terminate-chunked sent)
stream_body-chunked status left (bs ∷ more) dies sent h k =
    let sum = length-append bs (concat more) in
    let written = write_each-chunked sent bs in
    stream_body-step false status left bs (reads_of more dies) (good sent) h.0 (omega arith)
      (written ∙ ap (λ x. (x.0, true)) (sym written))
    ∙ ap (λ x. stream_body false status (left - length bs) (reads_of more dies) x.0) written
    ∙ stream_body-chunked status (left - length bs) more dies (sent ++ one_chunk bs []) h.1
        (omega arith)
    ∙ ap (λ t. some (good t, status_of status dies))
        (append_assoc sent (one_chunk bs []) (framed more [])
          ∙ ap (λ t. sent ++ t) (one_chunk-append bs (framed more [])))

-- Round trip of a streamed answer: with a connection that takes every write, and reads of at most
-- 16 KiB, together below the limit, what `stream_chunked` sends behind the head is decoded by a
-- client to the bytes of the upstream in their order, and to nothing more. An upstream that dies
-- after some bytes gives a complete body of those bytes; only the status reported to the pool, 502,
-- tells it from one that ends.
pub decode-stream_body :
    (status left : ℕ) (chunks : List (List ℕ)) (dies : Bool) (sent : List ℕ)
    → All IsChunk chunks
    → length (concat chunks) < left
    → (body : List ℕ) × (stream_body false status left (reads_of chunks dies) (good sent)
        ≡ some (good (sent ++ body), if dies then 502 else status))
      × (decode (suc (length chunks)) body ≡ some (concat chunks, []))
decode-stream_body status left chunks dies sent h k = (
  framed chunks [],
  stream_body-chunked status left chunks dies sent h k,
  decode-framed chunks [] h,
)
