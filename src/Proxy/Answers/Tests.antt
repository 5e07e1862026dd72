-- ===== src/Proxy/Answers/Tests.antt =====
-- src/proxy.rs: answers at concrete inputs, and the theorems on them.
use ollamux.Base.{
  ℕ, ◌^◌, ◌≡◌, refl, Bool, true, not, Option, some, ◌>>=◌, List, [], ◌∷◌, Text, codes, arith,
}
use ollamux.Base.Digits.{parse_below}
use ollamux.Affinity.Identity.{Value}
use ollamux.Pool.Admit.{Reject, queue_full}
use ollamux.Proxy.Headers.{Header}
use ollamux.Proxy.Answers.{
  Answer, Relayed, Stream, classify_relay, respond_buffered, error_json, send_reject,
}
use ollamux.Proxy.Answers.Laws.{
  header_value, error_message, classify_relay-respond_buffered, send_reject-read,
}

abbrev version : Text
version = codes "1.0.0"

abbrev headers : List Header
headers = (codes "content-type", codes "text/plain") ∷ []

-- A body that breaks off behind these bytes.
abbrev reader : Stream
reader = record { bytes = codes "model not found"; breaks = true }

abbrev respond : Relayed → Bool
respond a = not a.body.breaks

abbrev valid : Header → Bool
valid h = true

abbrev relayed : Answer × ℕ
relayed =
    classify_relay version valid 404 headers reader (some (codes "aaaa")) (some (codes "hit")) 1

abbrev buffered : Relayed × ℕ
buffered =
    respond_buffered version valid respond 404 headers reader (some (codes "aaaa")) (codes "hit") 1

classify_relay-respond_buffered_example :
    (relayed.0.status ≡ buffered.0.status)
    × (relayed.0.status ≡ 404)
    × (relayed.0.headers ≡ buffered.0.headers)
    × (relayed.0.body ≡ buffered.0.body.bytes)
    × (relayed.0.body ≡ reader.bytes)
    × (relayed.1 ≡ buffered.1)
    × (relayed.1 ≡ 502)
classify_relay-respond_buffered_example =
    classify_relay-respond_buffered version valid respond 404 headers reader (some (codes "aaaa"))
      (codes "hit") 1 λ a. refl

abbrev error_of : Reject → Value
error_of rej = error_json true (codes rej.reason) rej.status

abbrev to_string : Value → List ℕ
to_string v = codes "{..}"

abbrev from_slice : List ℕ → Option Value
from_slice bytes = some (error_of queue_full)

send_reject-read_example :
    ((send_reject to_string version queue_full true).status ≡ 429)
    × ((from_slice (send_reject to_string version queue_full true).body >>= error_message true)
        ≡ some (codes queue_full.reason))
    × ((header_value (codes "Retry-After") (send_reject to_string version queue_full true).headers
          >>= parse_below (2 ^ 64))
        ≡ some 2)
send_reject-read_example =
    send_reject-read from_slice to_string version queue_full true (omega arith) refl
