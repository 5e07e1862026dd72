-- ===== src/Proxy/Answers.antt =====
-- src/proxy.rs: the answers that are handed to tiny_http whole: relayed errors and plain answers, and
-- the proxy's own errors. An `Answer` is what the response is built from; its framing is
-- tiny_http's. Texts are bytes here.
pub mod Laws
mod Tests
use ollamux.Base.{
  ℕ, Bool, true, false, Option, none, some, List, [], ◌∷◌, ◌++◌, filter, take, drop, if◌then◌else◌,
  Text, String, codes, decimal,
}
use ollamux.Affinity.Identity.{Value, Fields}
use ollamux.Pool.Admit.{Reject}
use ollamux.Proxy.Headers.{Header}

pub record Answer : Type 0 where
  pub status : ℕ
  pub headers : List Header
  pub body : List ℕ

-- `SNIPPET`
abbrev pub snippet_size : ℕ
snippet_size = 256

-- `version` is that of the crate.
unfoldable pub identity_header : Text → Header
identity_header version = (codes "X-Ollamux", codes "ollamux/" ++ version)

abbrev pub affinity_headers : Option Text → List Header
affinity_headers none = []
affinity_headers (some verdict) = (codes "X-Ollamux-Affinity", verdict) ∷ []

-- The suffix of the key that served, if one did, and the affinity verdict.
abbrev pub key_headers : Option Text → Option Text → List Header
key_headers none affinity = []
key_headers (some suffix) affinity = (codes "X-Ollamux-Key", suffix) ∷ affinity_headers affinity

-- The bytes of a body, and whether reading it breaks off behind them.
pub record Stream : Type 0 where
  pub bytes : List ℕ
  pub breaks : Bool

-- The headers of `relay_error`: a loop adds each of the upstream's headers to the response, and then
-- the others are added one by one. `valid` is `Header::from_bytes`.
unfoldable pub with_headers : (Header → Bool) → List Header → List Header → List Header
with_headers valid [] resp = resp
with_headers valid (h ∷ headers) resp =
    with_headers valid headers (if valid h then resp ++ h ∷ [] else resp)

unfoldable pub relay_error_headers :
    Text → (Header → Bool) → List Header → Option Text → Option Text → ℕ → List Header
unfolding identity_header with_headers
relay_error_headers version valid headers suffix affinity retries =
    (((with_headers valid headers [] ++ key_headers suffix affinity)
        ++ (codes "X-Ollamux-Retries", decimal retries) ∷ [])
      ++ identity_header version ∷ [])

-- `relay_error`: the answer, and the status that is reported for it. `prefix` was read before.
unfoldable pub relay_error :
    Text
    → (Header → Bool)
    → ℕ
    → List Header
    → List ℕ
    → Stream
    → Option Text
    → Option Text
    → ℕ
    → Answer × ℕ
unfolding relay_error_headers
relay_error version valid status headers prefix reader suffix affinity retries = (
  record {
    status = status;
    headers = relay_error_headers version valid headers suffix affinity retries;
    body = prefix ++ reader.bytes;
  },
  if reader.breaks then 502 else status,
)

-- The snippet that `classify` reads for the log, and what the reader has left.
abbrev pub read_snippet : Stream → List ℕ × Stream
read_snippet reader =
    (take snippet_size reader.bytes, record reader { bytes = drop snippet_size reader.bytes })

-- `classify`, where it relays the answer.
unfoldable pub classify_relay :
    Text → (Header → Bool) → ℕ → List Header → Stream → Option Text → Option Text → ℕ → Answer × ℕ
unfolding relay_error
classify_relay version valid status headers reader suffix affinity retries =
    let (snippet, rest) = read_snippet reader in
    relay_error version valid status headers snippet rest suffix affinity retries

-- An answer whose body tiny_http reads as it sends it.
pub record Relayed : Type 0 where
  pub status : ℕ
  pub headers : List Header
  pub body : Stream

-- The headers of `respond_buffered`: those of the upstream are filtered, and the others are pushed.
abbrev pub pushed_key : Option Text → Text → List Header
pushed_key none affinity = []
pushed_key (some suffix) affinity =
    (codes "X-Ollamux-Key", suffix) ∷ (codes "X-Ollamux-Affinity", affinity) ∷ []

unfoldable pub respond_buffered_headers :
    Text → (Header → Bool) → List Header → Option Text → Text → ℕ → List Header
unfolding identity_header
respond_buffered_headers version valid headers suffix affinity retries =
    filter valid headers
    ++ (pushed_key suffix affinity
        ++ ((codes "X-Ollamux-Retries", decimal retries) ∷ identity_header version ∷ []))

-- `respond_buffered`: the answer, and the status that is reported for it. `respond` is that of
-- tiny_http: whether the answer went out.
unfoldable pub respond_buffered :
    Text
    → (Header → Bool)
    → (Relayed → Bool)
    → ℕ
    → List Header
    → Stream
    → Option Text
    → Text
    → ℕ
    → Relayed × ℕ
unfolding respond_buffered_headers
respond_buffered version valid respond status headers reader suffix affinity retries =
    let resp : Relayed = record {
      status = status;
      headers = respond_buffered_headers version valid headers suffix affinity retries;
      body = reader;
    } in
    (resp, if respond resp then status else 502)

unfoldable pub error_json : Bool → Text → ℕ → Value
error_json true msg status = Value.obj (
    Fields.field (codes "error")
      (Value.obj (
        Fields.field (codes "message") (Value.str msg) (
          Fields.field (codes "type") (Value.str (codes "ollamux_error")) (
            Fields.field (codes "param") Value.null (
              Fields.field (codes "code") (Value.str (codes "ollamux_" ++ decimal status))
                Fields.end)))))
      Fields.end)
error_json false msg status = Value.obj (Fields.field (codes "error") (Value.str msg) Fields.end)

abbrev pub retry_headers : Option ℕ → List Header
retry_headers none = []
retry_headers (some secs) = (codes "Retry-After", decimal secs) ∷ []

unfoldable pub json_response : Text → ℕ → List ℕ → Option ℕ → Answer
unfolding identity_header
json_response version status body retry_after = record {
  status = status;
  headers =
      (codes "Content-Type", codes "application/json")
      ∷ identity_header version
      ∷ retry_headers retry_after;
  body = body;
}

-- `send_reject`; `to_string` is that of `serde_json`.
unfoldable pub send_reject : (Value → List ℕ) → Text → Reject → Bool → Answer
unfolding error_json identity_header
send_reject to_string version rej is_v1 = record {
  status = rej.status;
  headers =
      (codes "Content-Type", codes "application/json")
      ∷ identity_header version
      ∷ retry_headers rej.retry_after_s;
  body = to_string (error_json is_v1 (codes rej.reason) rej.status);
}
