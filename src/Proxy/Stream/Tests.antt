-- ===== src/Proxy/Stream/Tests.antt =====
-- src/proxy.rs: streams at concrete inputs, and the theorems on them.
use ollamux.Base.{ℕ, ◌≡◌, refl, true, false, some, List, [], ◌∷◌, ◌++◌, codes, arith}
use ollamux.Base.Hex.{hex}
use ollamux.Proxy.Stream.{Wire, whole, failed_after, Read, bytes, stream_body}
use ollamux.Proxy.Stream.Chunks.{decode}
use ollamux.Proxy.Stream.Delivered.{decode-stream_body, good, reads_of}
use ollamux.Proxy.Stream.Faults.{stream_body-SendsPart, SendsPart, wire_form}

abbrev two_chunks : List (List ℕ)
two_chunks = codes "hello " ∷ codes "world" ∷ []

decode-stream_body_example :
    (body : List ℕ) × (stream_body false 200 100 (reads_of two_chunks true) (good (codes "head"))
      ≡ some (good (codes "head" ++ body), 502))
    × (decode 3 body ≡ some (codes "hello world", []))
unfolding codes
decode-stream_body_example =
    decode-stream_body 200 100 two_chunks true (codes "head")
      ((omega arith, omega arith), ((omega arith, omega arith), tt)) (omega arith)

-- The client goes away within the second frame.
abbrev leaving : Wire
leaving = record { sent = []; writes = whole ∷ whole ∷ whole ∷ whole ∷ failed_after 1 ∷ [] }

abbrev reads : List Read
reads = bytes (codes "hello ") ∷ bytes (codes "world") ∷ bytes [] ∷ []

abbrev left_with : Wire
left_with = record { sent = codes "6\r\nhello \r\n5"; writes = [] }

stream_body-SendsPart_example : SendsPart leaving left_with (wire_form false reads)
unfolding stream_body codes hex
stream_body-SendsPart_example =
    stream_body-SendsPart false 200 100 200 reads leaving left_with
      (omega arith, omega arith, (omega arith, omega arith, (omega arith, omega arith, tt))) refl
