-- ===== src/Proxy/Stream.antt =====
-- src/proxy.rs: `stream_chunked`, the relay of a streamed answer with framing of its own. A text is
-- its bytes here. The client's connection is a `Wire`: what was sent, and how the next writes fare.
-- The upstream is a list of reads. `none` is a read that does not come back.
pub mod Chunks
pub mod Delivered
pub mod Faults
mod Tests
use ollamux.Base.{
  is_empty, ℕ, ◌-◌, ◌*◌, Bool, true, false, not, Option, none, some, ◌>>=◌, List, [], ◌∷◌, ◌++◌,
  min, length, take, ◌==◌, if◌then◌else◌, Text, codes, text_eq, decimal, String,
}
use ollamux.Base.Hex.{hex}
use ollamux.Base.Ascii.{eq_ignore_ascii_case}

abbrev pub chunk_size : ℕ
chunk_size = 16 * 1024

abbrev pub stream_limit : ℕ
stream_limit = chunk_size * 1_000_000

-- How a write fares: all bytes are taken, or an error after the first `n` of them.
pub data Write : Type 0 where
  whole : Write
  failed_after : ℕ → Write

-- The writes to come; past the end of the list every write succeeds.
pub record Wire : Type 0 where
  pub sent : List ℕ
  pub writes : List Write

-- `write_all` or `flush`, which writes nothing; and whether it succeeded.
unfoldable pub write_all : Wire → List ℕ → Wire × Bool
write_all w bs = elim w.writes [
  | [] ↦ (record w { sent = w.sent ++ bs }, true)
  | whole ∷ rest ↦ (record { sent = w.sent ++ bs; writes = rest }, true)
  | failed_after n ∷ rest ↦ (record { sent = w.sent ++ take n bs; writes = rest }, false)
]

abbrev pub flush : Wire → Wire × Bool
flush w = write_all w []

-- `a.is_ok() && b.is_ok() && ..`, then a flush.
unfoldable pub write_each : Wire → List (List ℕ) → Wire × Bool
unfolding write_all
write_each w [] = flush w
write_each w (bs ∷ more) =
    let later = write_each (write_all w bs).0 more in
    if (write_all w bs).1 then later else ((write_all w bs).0, false)

abbrev pub crlf : List ℕ
crlf = 13 ∷ 10 ∷ []

-- The frame of the bytes of one read.
unfoldable pub frame : Bool → List ℕ → List (List ℕ)
frame true bs = bs ∷ []
frame false bs = (hex (length bs) ++ crlf) ∷ bs ∷ crlf ∷ []

-- `0\r\n\r\n`
abbrev pub last_chunk : List ℕ
last_chunk = b'0' ∷ 13 ∷ 10 ∷ 13 ∷ 10 ∷ []

-- The end of a chunked body; errors are ignored.
unfoldable pub terminate : Bool → Wire → Wire
unfolding write_all
terminate true w = w
terminate false w = (flush (write_all w last_chunk).0).0

-- What a read of the upstream comes to: bytes (none of them is the end), or an error.
pub data Read : Type 0 where
  bytes : List ℕ → Read
  died : Read

-- The loop over the reads, with `left` bytes to go until the limit; and the status it reports. A
-- read of the limited reader asks for no more than the limit leaves.
unfoldable pub stream_body : Bool → ℕ → ℕ → List Read → Wire → Option (Wire × ℕ)
unfolding write_each frame terminate
stream_body http10 status left [] w = if left == 0 then some (terminate http10 w, status) else none
stream_body http10 status left (died ∷ reads) w =
    if left == 0 then some (terminate http10 w, status) else some (terminate http10 w, 502)
stream_body http10 status left (bytes bs ∷ reads) w =
    let got = take (min chunk_size left) bs in
    let written = write_each w (frame http10 got) in
    let rest = stream_body http10 status (left - length got) reads written.0 in
    if is_empty got
    then some (terminate http10 w, status)
    else (if written.1 then rest else some (written.0, 200))

abbrev pub Headers : Type 0
Headers = List (Text × Text)

unfoldable pub header_line : Text → Text → Text
header_line name value = name ++ (codes ": " ++ (value ++ crlf))

abbrev pub relayed_lines : Headers → Text
relayed_lines [] = []
relayed_lines (h ∷ hs) =
    (if not (eq_ignore_ascii_case h.0 (codes "content-length")) then header_line h.0 h.1 else [])
    ++ relayed_lines hs

abbrev pub key_lines : Option Text → Text → Text
key_lines none affinity = []
key_lines (some suffix) affinity =
    header_line (codes "X-Ollamux-Key") suffix ++ header_line (codes "X-Ollamux-Affinity") affinity

abbrev pub framing_line : Bool → Text
framing_line true = codes "Connection: close" ++ (crlf ++ crlf)
framing_line false = codes "Transfer-Encoding: chunked" ++ (crlf ++ crlf)

-- `reason_phrase`.
unfoldable pub reason_phrase : ℕ → String
reason_phrase status =
    if status == 200
    then "OK"
    else (if status == 201
        then "Created"
        else (if status == 202
            then "Accepted"
            else (if status == 204
                then "No Content"
                else (if status == 301
                    then "Moved Permanently"
                    else (if status == 302
                        then "Found"
                        else (if status == 304
                            then "Not Modified"
                            else (if status == 400
                                then "Bad Request"
                                else (if status == 401
                                    then "Unauthorized"
                                    else (if status == 402
                                        then "Payment Required"
                                        else (if status == 403
                                            then "Forbidden"
                                            else (if status == 404
                                                then "Not Found"
                                                else (if status == 408
                                                    then "Request Timeout"
                                                    else (if status == 413
                                                        then "Payload Too Large"
                                                        else (if status == 422
                                                            then "Unprocessable Entity"
                                                            else (if status == 429
                                                            then "Too Many Requests"
                                                            else (if status == 500
                                                            then "Internal Server Error"
                                                            else (if status == 502
                                                            then "Bad Gateway"
                                                            else (if status == 503
                                                            then "Service Unavailable"
                                                            else (if status == 504
                                                            then "Gateway Timeout"
                                                            else "")))))))))))))))))))

-- The head of the response; `version` is the crate's.
unfoldable pub response_head : Text → Bool → ℕ → ℕ → Option Text → Text → Headers → Text
unfolding header_line reason_phrase
response_head version http10 status retries suffix affinity headers =
    codes "HTTP/1.1 "
    ++ (decimal status
        ++ (codes " "
            ++ (codes (reason_phrase status)
                ++ (crlf
                    ++ (header_line (codes "X-Ollamux") (codes "ollamux/" ++ version)
                        ++ (key_lines suffix affinity
                            ++ (header_line (codes "X-Ollamux-Retries") (decimal retries)
                                ++ (relayed_lines headers ++ framing_line http10))))))))

-- `stream_chunked` on its head; the client that is gone before the body counts as status 500.
unfoldable pub stream_chunked : Text → Bool → ℕ → List Read → Wire → Option (Wire × ℕ)
unfolding stream_body write_each
stream_chunked head http10 status reads w =
    let started = write_each w (head ∷ []) in
    let body = stream_body http10 status stream_limit reads started.0 in
    if started.1 then body else some (started.0, 500)
