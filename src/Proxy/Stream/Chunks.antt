-- ===== src/Proxy/Stream/Chunks.antt =====
-- src/proxy.rs: what a client makes of a streamed answer. `decode` reads the chunked transfer coding
-- of HTTP/1.1, with no extensions and no trailers; it is not of the program.
use ollamux.Base.{
  ℕ, zero, suc, ◌≤◌, ◌≡◌, refl, ap, ◌∙◌, true, false, Option, none, some, ◌>>=◌, List, [], ◌∷◌,
  ◌++◌, All, all, length, take, drop, split_once, ◌==◌, if◌then◌else◌, arith, Text,
}
use ollamux.Base.Hex.{hex, hex_value, hex_digit_value, not_cr, hex_value-hex, hex-not_cr}
use ollamux.Proxy.Stream.{chunk_size, last_chunk}

after_lf : Text → Option Text
after_lf [] = none
after_lf (c ∷ cs) = if c == 10 then some cs else none

after_crlf : Text → Option Text
after_crlf [] = none
after_crlf (c ∷ cs) = if c == 13 then after_lf cs else none

-- A chunk of the given size, or the end, and what `again` makes of the text behind it.
decode_chunk : (Text → Option (List ℕ × Text)) → ℕ → Text → Option (List ℕ × Text)
unfolding after_crlf after_lf
decode_chunk again size body =
    if size == 0
    then (after_crlf body >>= λ rest. some ([], rest))
    else (after_crlf (drop size body) >>= λ next.
        again next >>= λ (more, rest). some (take size body ++ more, rest))

-- The body and what follows it. Each chunk takes one unit of fuel.
unfoldable pub decode : ℕ → Text → Option (List ℕ × Text)
unfolding after_lf decode_chunk hex_value
decode zero t = none
decode (suc fuel) t = split_once 13 t >>= λ (line, ended).
    after_lf ended >>= λ body. decode_chunk (decode fuel) (hex_value 0 line) body

split_once-append : (s t : Text) → all not_cr s ≡ true → split_once 13 (s ++ 13 ∷ t) ≡ some (s, t)
unfolding split_once
split_once-append [] t h = refl
split_once-append (c ∷ s) t h = ground (arith, split_once-append s t (ground arith))

take-append : (s t : Text) → take (length s) (s ++ t) ≡ s
take-append [] t = refl
take-append (c ∷ s) t = ap (λ r. c ∷ r) (take-append s t)

drop-append : (s t : Text) → drop (length s) (s ++ t) ≡ t
drop-append [] t = refl
drop-append (c ∷ s) t = drop-append s t

abbrev pub one_chunk : List ℕ → Text → Text
one_chunk bs t = hex (length bs) ++ 13 ∷ 10 ∷ (bs ++ 13 ∷ 10 ∷ t)

abbrev more_after : List ℕ → Option (List ℕ × Text) → Option (List ℕ × Text)
more_after bs o = o >>= λ (more, rest). some (bs ++ more, rest)

decode_chunk-nonzero :
    (again : Text → Option (List ℕ × Text)) (bs : List ℕ) (t : Text)
    → 1 ≤ length bs
    → decode_chunk again (length bs) (bs ++ 13 ∷ 10 ∷ t) ≡ more_after bs (again t)
unfolding decode_chunk
decode_chunk-nonzero again bs t h =
    rw (nonzero, drop-append bs (13 ∷ 10 ∷ t), take-append bs (13 ∷ 10 ∷ t)) refl
  where
    nonzero : (length bs == 0) ≡ false
    nonzero = ground arith

decode-step :
    (fuel : ℕ) (line body : Text)
    → all not_cr line ≡ true
    → decode (suc fuel) (line ++ 13 ∷ 10 ∷ body)
      ≡ decode_chunk (decode fuel) (hex_value 0 line) body
unfolding decode
decode-step fuel line body h = rw (split_once-append line (10 ∷ body) h) refl

decode-one_chunk :
    (fuel : ℕ) (bs : List ℕ) (t : Text)
    → 1 ≤ length bs
    → decode (suc fuel) (one_chunk bs t) ≡ more_after bs (decode fuel t)
decode-one_chunk fuel bs t h =
    decode-step fuel (hex (length bs)) (bs ++ 13 ∷ 10 ∷ t) (hex-not_cr (length bs))
    ∙ ap (λ n. decode_chunk (decode fuel) n (bs ++ 13 ∷ 10 ∷ t)) (hex_value-hex (length bs))
    ∙ decode_chunk-nonzero (decode fuel) bs t h

abbrev pub framed : List (List ℕ) → Text → Text
framed [] t = last_chunk ++ t
framed (bs ∷ more) t = one_chunk bs (framed more t)

abbrev pub concat : List (List ℕ) → List ℕ
concat [] = []
concat (bs ∷ more) = bs ++ concat more

decode-last_chunk : (fuel : ℕ) (t : Text) → decode (suc fuel) (last_chunk ++ t) ≡ some ([], t)
unfolding decode hex_digit_value split_once
decode-last_chunk fuel t = refl

abbrev pub IsChunk : List ℕ → Type 0
IsChunk bs = (1 ≤ length bs) × (length bs ≤ chunk_size)

pub decode-framed :
    (chunks : List (List ℕ)) (t : Text)
    → All IsChunk chunks
    → decode (suc (length chunks)) (framed chunks t) ≡ some (concat chunks, t)
decode-framed [] t h = decode-last_chunk 0 t
decode-framed (bs ∷ more) t h =
    rw (decode-one_chunk (suc (length more)) bs (framed more t) h.0.0, decode-framed more t h.1)
      refl
