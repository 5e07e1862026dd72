-- ===== src/Proxy/Stream/Faults.antt =====
-- src/proxy.rs: what `stream_body` sends when writes fail at any point.
use mathlib.Core.List.{append_assoc, append-nil}
use ollamux.Base.{
  is_empty, ℕ, zero, suc, ◌-◌, ◌≤◌, ◌≡◌, refl, sym, ap, ◌∙◌, subst, Bool, true, false, some, List,
  [], ◌∷◌, ◌++◌, min, length, take, drop, ◌==◌, if◌then◌else◌, Bool-cases, inl, inr, arith,
}
use ollamux.Proxy.Stream.{
  chunk_size, Write, whole, failed_after, Wire, write_all, write_each, frame, last_chunk, terminate,
  Read, bytes, died, stream_body,
}
use ollamux.Proxy.Stream.Chunks.{concat}
use ollamux.Proxy.Stream.Delivered.{take-all}

-- `v` is `w` after a first part of `t` was sent; all of it, if `ok`.
abbrev pub Sends : Wire → Wire → List ℕ → Bool → Type 0
Sends w v t ok =
    (p : List ℕ) × (rest : List ℕ) × (v.sent ≡ w.sent ++ p)
    × (p ++ rest ≡ t)
    × (ok ≡ true → rest ≡ [])

take-drop : (n : ℕ) (bs : List ℕ) → take n bs ++ drop n bs ≡ bs
take-drop zero bs = refl
take-drop (suc n) [] = refl
take-drop (suc n) (b ∷ bs) = ap (λ r. b ∷ r) (take-drop n bs)

write_all-Sends : (w : Wire) (bs : List ℕ) → Sends w (write_all w bs).0 bs (write_all w bs).1
unfolding write_all
write_all-Sends w bs = go w.writes refl
  where
    go : (ws : List Write) → w.writes ≡ ws → Sends w (write_all w bs).0 bs (write_all w bs).1
    go [] e = (bs, [], ground arith, append-nil bs, λ h. refl)
    go (whole ∷ rest) e = (bs, [], ground arith, append-nil bs, λ h. refl)
    go (failed_after n ∷ rest) e =
        (take n bs, drop n bs, ground arith, take-drop n bs, λ h. absurd (ground arith))

-- One thing after another: the second is tried only if the first was sent whole.
Sends-then :
    (w v u : Wire) (s t : List ℕ) (ok : Bool)
    → Sends w v s true
    → Sends v u t ok
    → Sends w u (s ++ t) ok
Sends-then w v u s t ok (p, rest, sent, parts, done) (p', rest', sent', parts', done') = (
  p ++ p',
  rest',
  sent' ∙ ap (λ x. x ++ p') sent ∙ append_assoc w.sent p p',
  append_assoc p p' rest'
      ∙ ap (λ x. p ++ x) parts'
      ∙ ap (λ x. x ++ t) (sym (append-nil p) ∙ ap (λ r. p ++ r) (sym (done refl)) ∙ parts),
  done',
)

Sends-failed : (w v : Wire) (s t : List ℕ) → Sends w v s false → Sends w v (s ++ t) false
Sends-failed w v s t (p, rest, sent, parts, done) =
    (p, rest ++ t, sent, sym (append_assoc p rest t) ∙ ap (λ x. x ++ t) parts, λ h. cc)

write_each-Sends :
    (w : Wire) (parts : List (List ℕ))
    → Sends w (write_each w parts).0 (concat parts) (write_each w parts).1
unfolding write_each
write_each-Sends w [] = write_all-Sends w []
write_each-Sends w (bs ∷ more) = elim (Bool-cases (write_all w bs).1) [
  | inl ok ↦ rw ok (
      Sends-then w (write_all w bs).0 (write_each (write_all w bs).0 more).0 bs (concat more) _
        (subst (Sends w (write_all w bs).0 bs) ok (write_all-Sends w bs))
        (write_each-Sends (write_all w bs).0 more))
  | inr bad ↦ rw bad (
      Sends-failed w (write_all w bs).0 bs (concat more)
        (subst (Sends w (write_all w bs).0 bs) bad (write_all-Sends w bs)))
]

abbrev pub ending : Bool → List ℕ
ending true = []
ending false = last_chunk

-- The framing of an answer, as the reads give it.
abbrev pub wire_form : Bool → List Read → List ℕ
wire_form http10 [] = ending http10
wire_form http10 (died ∷ reads) = ending http10
wire_form http10 (bytes bs ∷ reads) =
    if is_empty bs then ending http10 else concat (frame http10 bs) ++ wire_form http10 reads

abbrev pub SendsPart : Wire → Wire → List ℕ → Type 0
SendsPart w v t = (p : List ℕ) × (rest : List ℕ) × (v.sent ≡ w.sent ++ p) × (p ++ rest ≡ t)

empty-front : (p rest : List ℕ) → p ++ rest ≡ [] → p ≡ []
empty-front [] rest e = refl
empty-front (x ∷ p) rest e = cc

flush-sent : (w : Wire) → (write_all w []).0.sent ≡ w.sent
flush-sent w =
    let (p, rest, sent, parts, done) = write_all-Sends w [] in
    sent ∙ ap (λ x. w.sent ++ x) (empty-front p rest parts) ∙ append-nil w.sent

terminate-SendsPart : (http10 : Bool) (w : Wire) → SendsPart w (terminate http10 w) (ending http10)
unfolding terminate
terminate-SendsPart true w = ([], [], sym (append-nil w.sent), refl)
terminate-SendsPart false w =
    let (p, rest, sent, parts, done) = write_all-Sends w last_chunk in
    (p, rest, flush-sent (write_all w last_chunk).0 ∙ sent, parts)

-- The reads keep to the buffer they are given, and to the limit of the relay.
abbrev pub Fits : ℕ → List Read → Type 0
Fits left [] = Unit {0}
Fits left (died ∷ reads) = Unit {0}
Fits left (bytes bs ∷ reads) =
    (length bs ≤ chunk_size) × (length bs ≤ left) × Fits (left - length bs) reads

at_limit :
    (http10 : Bool) (left : ℕ) (reads : List Read)
    → left ≡ 0
    → Fits left reads
    → wire_form http10 reads ≡ ending http10
at_limit http10 left [] e h = refl
at_limit http10 left (died ∷ reads) e h = refl
at_limit http10 left (bytes [] ∷ reads) e h = refl
at_limit http10 left (bytes (b ∷ bs) ∷ reads) e h = absurd (omega arith)

SendsPart-then :
    (w v u : Wire) (s t : List ℕ) → Sends w v s true → SendsPart v u t → SendsPart w u (s ++ t)
SendsPart-then w v u s t sends (p, rest, sent, parts) =
    let (p', rest', sent', parts', done) =
      Sends-then w v u s t false sends (p, rest, sent, parts, λ h. absurd (ground arith)) in
    (p', rest', sent', parts')

stream_body-bytes :
    (http10 : Bool) (status left b : ℕ) (bs : List ℕ) (reads : List Read) (w : Wire) (ok : Bool)
    → length (b ∷ bs) ≤ chunk_size
    → length (b ∷ bs) ≤ left
    → (write_each w (frame http10 (b ∷ bs))).1 ≡ ok
    → stream_body http10 status left (bytes (b ∷ bs) ∷ reads) w ≡ (
        if ok
        then stream_body http10 status
            (left - length (b ∷ bs))
            reads
            (write_each w (frame http10 (b ∷ bs))).0
        else some ((write_each w (frame http10 (b ∷ bs))).0, 200))
unfolding stream_body
stream_body-bytes http10 status left b bs reads w ok small enough e =
    rw (take-all (min chunk_size left) (b ∷ bs) (ground arith), e) refl

-- Whatever writes fail and however many bytes of them are taken, what is sent behind the head is a
-- first part of the framing of what the upstream gave: nothing is sent twice, out of order or after
-- a failure. To an HTTP/1.0 client the framing is the bytes themselves.
pub stream_body-SendsPart :
    (http10 : Bool) (status left s : ℕ) (reads : List Read) (w v : Wire)
    → Fits left reads
    → stream_body http10 status left reads w ≡ some (v, s)
    → SendsPart w v (wire_form http10 reads)
unfolding stream_body
stream_body-SendsPart http10 status left s [] w v h e = elim (Bool-cases (left == 0)) [
  | inl z ↦
      subst (λ x. SendsPart w x (ending http10)) {x = terminate http10 w} {y = v} (ground arith)
        (terminate-SendsPart http10 w)
  | inr z ↦ absurd (ground arith)
]
stream_body-SendsPart http10 status left s (died ∷ reads) w v h e =
    subst (λ x. SendsPart w x (ending http10)) {x = terminate http10 w} {y = v} (ground arith)
      (terminate-SendsPart http10 w)
stream_body-SendsPart http10 status left s (bytes [] ∷ reads) w v h e =
    subst (λ x. SendsPart w x (ending http10)) {x = terminate http10 w} {y = v}
      (ground (arith, take-all (min chunk_size left) [] (omega arith)))
      (terminate-SendsPart http10 w)
stream_body-SendsPart http10 status left s (bytes (b ∷ bs) ∷ reads) w v (small, enough, later) e =
    let written = write_each w (frame http10 (b ∷ bs)) in
    let sends = write_each-Sends w (frame http10 (b ∷ bs)) in
    elim (Bool-cases written.1) [
      | inl ok ↦
          SendsPart-then w written.0 v (concat (frame http10 (b ∷ bs))) (wire_form http10 reads)
            (subst (Sends w written.0 (concat (frame http10 (b ∷ bs)))) ok sends)
            (stream_body-SendsPart http10 status (left - length (b ∷ bs)) s reads written.0 v later
              (sym (stream_body-bytes http10 status left b bs reads w true small enough ok) ∙ e))
      | inr bad ↦
          let stopped =
            sym (stream_body-bytes http10 status left b bs reads w false small enough bad) ∙ e in
          let (p, rest, sent, parts, done) =
            Sends-failed w written.0 (concat (frame http10 (b ∷ bs))) (wire_form http10 reads)
              (subst (Sends w written.0 (concat (frame http10 (b ∷ bs)))) bad sends) in
          subst (λ x. SendsPart w x (concat (frame http10 (b ∷ bs)) ++ wire_form http10 reads))
            {x = written.0} {y = v} (ground arith) (p, rest, sent, parts)
    ]
