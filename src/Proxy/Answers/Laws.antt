-- ===== src/Proxy/Answers/Laws.antt =====
-- src/proxy.rs: what a client finds in the answers that are handed over whole.
use ollamux.Base.{
  ℕ, zero, suc, ◌^◌, ◌<◌, ◌≡◌, refl, sym, ap, ◌∙◌, Bool, not, filter, Bool-cases, inl, inr, true,
  false, Option, none, some, ◌>>=◌, List, [], ◌∷◌, ◌++◌, take, drop, if◌then◌else◌, Text, codes,
  text_eq,
}
use mathlib.Core.List.{append_assoc, append-nil}
use ollamux.Base.Digits.{parse_below, parse_below-decimal}
use ollamux.Affinity.Identity.{Value, get, as_str}
use ollamux.Pool.Admit.{Reject}
use ollamux.Proxy.Headers.{Header}
use ollamux.Proxy.Answers.{
  Stream, Relayed, snippet_size, key_headers, pushed_key, with_headers, relay_error_headers,
  respond_buffered_headers, relay_error, classify_relay, respond_buffered, error_json,
  identity_header, retry_headers, send_reject,
}

take-drop : (n : ℕ) (bs : List ℕ) → take n bs ++ drop n bs ≡ bs
take-drop zero bs = refl
take-drop (suc n) [] = refl
take-drop (suc n) (b ∷ bs) = ap (λ t. b ∷ t) (take-drop n bs)

-- The loop that adds headers comes to the filter.
with_headers-filter :
    (valid : Header → Bool) (headers resp : List Header)
    → with_headers valid headers resp ≡ resp ++ filter valid headers
unfolding with_headers
with_headers-filter valid [] resp = sym (append-nil resp)
with_headers-filter valid (h ∷ headers) resp = elim (Bool-cases (valid h)) [
  | inl good ↦ rw good (
      with_headers-filter valid headers (resp ++ h ∷ [])
      ∙ append_assoc resp (h ∷ []) (filter valid headers))
  | inr bad ↦ rw bad (with_headers-filter valid headers resp)
]

pushed_key-key_headers :
    (suffix : Option Text) (affinity : Text)
    → key_headers suffix (some affinity) ≡ pushed_key suffix affinity
pushed_key-key_headers none affinity = refl
pushed_key-key_headers (some suffix) affinity = refl

relay_error_headers-respond_buffered_headers :
    (version : Text) (valid : Header → Bool) (headers : List Header) (suffix : Option Text)
    (affinity : Text) (retries : ℕ)
    → relay_error_headers version valid headers suffix (some affinity) retries
      ≡ respond_buffered_headers version valid headers suffix affinity retries
unfolding relay_error_headers respond_buffered_headers
relay_error_headers-respond_buffered_headers version valid headers suffix affinity retries =
    rw
      (
        with_headers-filter valid headers [],
        pushed_key-key_headers suffix affinity,
        append_assoc,
        append_assoc (filter valid headers),
      )
      refl

-- An error that `classify` relays and an answer that `respond_buffered` relays reach the client
-- alike, if both come with the same status, headers, body, key, verdict and retries: the status is
-- that of the upstream, the headers are the same ones in the same order though one loop adds them
-- and one filter collects them, and the body is the whole body that the upstream sent though
-- `classify` read its first part for the log. If `respond` of tiny_http fails exactly when the
-- body breaks off, the status that is reported is the same, too: 502 if the body breaks off, and
-- otherwise that of the upstream.
pub classify_relay-respond_buffered :
    (version : Text) (valid : Header → Bool) (respond : Relayed → Bool) (status : ℕ)
    (headers : List Header) (reader : Stream) (suffix : Option Text) (affinity : Text) (retries : ℕ)
    → ((a : Relayed) → respond a ≡ not a.body.breaks)
    → let (relayed, reported) =
        classify_relay version valid status headers reader suffix (some affinity) retries in
      let (answer, told) =
        respond_buffered version valid respond status headers reader suffix affinity retries in
      (relayed.status ≡ answer.status)
      × (relayed.status ≡ status)
      × (relayed.headers ≡ answer.headers)
      × (relayed.body ≡ answer.body.bytes)
      × (relayed.body ≡ reader.bytes)
      × (reported ≡ told)
      × (reported ≡ (if reader.breaks then 502 else status))
unfolding classify_relay respond_buffered relay_error
classify_relay-respond_buffered version valid respond status headers reader suffix affinity retries
      fails =
    (
      refl,
      refl,
      relay_error_headers-respond_buffered_headers version valid headers suffix affinity retries,
      take-drop snippet_size reader.bytes,
      take-drop snippet_size reader.bytes,
      told,
      refl,
    )
  where
    told :
        (if reader.breaks then 502 else status)
        ≡ (respond_buffered version valid respond status headers reader suffix affinity retries).1
    told = elim (Bool-cases reader.breaks) [
      | inl broke ↦ rw (fails, broke) refl
      | inr whole ↦ rw (fails, whole) refl
    ]

-- The value of the first header of that name.
abbrev pub header_value : Text → List Header → Option Text
header_value name [] = none
header_value name (h ∷ hs) = if text_eq h.0 name then some h.1 else header_value name hs

-- Where a client of either API looks for the message of an error.
abbrev pub error_message : Bool → Value → Option Text
error_message true v = get v (codes "error") >>= λ e. get e (codes "message") >>= as_str
error_message false v = get v (codes "error") >>= as_str

error_message-error_json :
    (is_v1 : Bool) (msg : Text) (status : ℕ)
    → error_message is_v1 (error_json is_v1 msg status) ≡ some msg
unfolding error_json get codes text_eq
error_message-error_json true msg status = refl
error_message-error_json false msg status = refl

abbrev FitsU64 : Option ℕ → Type 0
FitsU64 none = Unit {0}
FitsU64 (some secs) = secs < 2 ^ 64

retry_headers-read :
    (version : Text) (o : Option ℕ)
    → FitsU64 o
    → (header_value (codes "Retry-After") (
          (codes "Content-Type", codes "application/json")
          ∷ identity_header version
          ∷ retry_headers o)
        >>= parse_below (2 ^ 64))
      ≡ o
unfolding codes text_eq identity_header
retry_headers-read version none fits = refl
retry_headers-read version (some secs) fits = parse_below-decimal (2 ^ 64) secs fits

-- Round trip of a rejection: if the JSON of its error is read back, a client of either API finds in
-- the answer the status, the reason and the wait in seconds, if there is one, of the rejection. The
-- wait is taken to fit 64 bits.
pub send_reject-read :
    (from_slice : List ℕ → Option Value) (to_string : Value → List ℕ) (version : Text)
    (rej : Reject) (is_v1 : Bool)
    → FitsU64 rej.retry_after_s
    → from_slice (to_string (error_json is_v1 (codes rej.reason) rej.status))
      ≡ some (error_json is_v1 (codes rej.reason) rej.status)
    → let a = send_reject to_string version rej is_v1 in
      (a.status ≡ rej.status)
      × ((from_slice a.body >>= error_message is_v1) ≡ some (codes rej.reason))
      × ((header_value (codes "Retry-After") a.headers >>= parse_below (2 ^ 64))
          ≡ rej.retry_after_s)
unfolding send_reject
send_reject-read from_slice to_string version rej is_v1 fits back = (
  refl,
  ap (λ o. o >>= error_message is_v1) back
      ∙ error_message-error_json is_v1 (codes rej.reason) rej.status,
  retry_headers-read version rej.retry_after_s fits,
)
