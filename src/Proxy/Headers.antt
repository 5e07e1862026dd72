-- ===== src/Proxy/Headers.antt =====
-- src/proxy.rs: the headers of a request on its way to the upstream, and those of its answer on the
-- way back. What `call.set` is called with is a list of calls, in order.
pub mod Laws
mod Tests
use ollamux.Base.{
  is_empty, ℕ, Bool, true, false, not, ◌||◌, Option, none, some, ◌>>=◌, List, [], ◌∷◌, ◌++◌, map,
  any, filter, get_elem?, if◌then◌else◌, Text, codes, text_eq, starts_with,
}
use ollamux.Base.Ascii.{to_ascii_lowercase}
use ollamux.Pool.{Pool, secret_of}

abbrev pub Header : Type 0
Header = Text × Text

-- `SKIP.contains`
abbrev pub is_in : Text → List Text → Bool
is_in name names = any (λ n. text_eq n name) names

abbrev pub skipped_of_request : List Text
skipped_of_request =
    codes "connection"
    ∷ codes "keep-alive"
    ∷ codes "proxy-connection"
    ∷ codes "te"
    ∷ codes "trailer"
    ∷ codes "transfer-encoding"
    ∷ codes "upgrade"
    ∷ codes "expect"
    ∷ codes "host"
    ∷ codes "content-length"
    ∷ codes "authorization"
    ∷ codes "cookie"
    ∷ codes "accept-encoding"
    ∷ []

-- `name` is in lower case.
unfoldable pub is_skipped : Text → Bool
unfolding text_eq starts_with
is_skipped name = is_in name skipped_of_request || starts_with name (codes "proxy-")

unfoldable pub curated_request_headers : List Header → List Header
unfolding is_skipped to_ascii_lowercase
curated_request_headers headers = filter (λ h. not (is_skipped (to_ascii_lowercase h.0))) headers

abbrev pub skipped_of_response : List Text
skipped_of_response =
    codes "connection"
    ∷ codes "keep-alive"
    ∷ codes "transfer-encoding"
    ∷ codes "te"
    ∷ codes "trailer"
    ∷ codes "upgrade"
    ∷ codes "set-cookie"
    ∷ codes "alt-svc"
    ∷ codes "content-length"
    ∷ []

-- `names` is `headers_names` of the upstream's answer, and `values` its `all`.
unfoldable pub curated_response_headers : List Text → (Text → List Text) → List Header
unfolding text_eq
curated_response_headers [] values = []
curated_response_headers (name ∷ names) values =
    (if is_in name skipped_of_response then [] else map (λ value. (name, value)) (values name))
    ++ curated_response_headers names values

abbrev pub with_query : Option Text → Text
with_query none = []
with_query (some q) = if is_empty q then [] else codes "?" ++ q

-- The URL of an attempt.
unfoldable pub upstream_url : Text → Text → Option Text → Text
upstream_url upstream sub_path query = upstream ++ (codes "/" ++ (sub_path ++ with_query query))

unfoldable pub bearer : Text → Header
bearer secret = (codes "Authorization", codes "Bearer " ++ secret)

-- `no_auth` is whether the path needs no key; then no key is sent even if there is one.
unfoldable pub authorization : Pool → Option ℕ → Bool → Option (List Header)
unfolding bearer secret_of
authorization p none no_auth = some []
authorization p (some key) true = some []
authorization p (some key) false = secret_of p key >>= λ secret. some (bearer secret ∷ [])

abbrev pub identity_encoding : Header
identity_encoding = (codes "Accept-Encoding", codes "identity")

-- The headers that an attempt sets on the call of the upstream.
unfoldable pub upstream_headers : Pool → Option ℕ → Bool → List Header → Option (List Header)
unfolding curated_request_headers authorization
upstream_headers p key no_auth headers = authorization p key no_auth >>= λ auth.
    some (curated_request_headers headers ++ (auth ++ identity_encoding ∷ []))
