-- ===== src/Proxy/Headers/Tests.antt =====
-- src/proxy.rs: headers at concrete inputs, and the theorems on them.
use ollamux.Base.{◌≡◌, refl, false, some, List, [], ◌∷◌, All, Text, codes, text_eq, starts_with}
use ollamux.Base.Ascii.{to_ascii_lowercase, lower}
use ollamux.Samples.{three_keys}
use ollamux.Pool.{secret_of}
use ollamux.Proxy.Headers.{
  Header, upstream_headers, curated_response_headers, upstream_url, authorization, bearer,
}
use ollamux.Proxy.Headers.Laws.{
  IsNamed, IsOurs, private_names, withheld_names, upstream_headers-OnlyOurs,
  curated_response_headers-NoWithheld,
}

-- The client sends a credential of its own.
abbrev from_client : List Header
from_client =
    (codes "AUTHORIZATION", codes "Bearer mine")
    ∷ (codes "Accept", codes "*/*")
    ∷ (codes "Proxy-Token", codes "t")
    ∷ []

abbrev to_upstream : List Header
to_upstream =
    (codes "Accept", codes "*/*")
    ∷ (codes "Authorization", codes "Bearer key-bbbb")
    ∷ (codes "Accept-Encoding", codes "identity")
    ∷ []

url :
    upstream_url (codes "https://ollama.com") (codes "api/tags") (some (codes "a=1"))
    ≡ codes "https://ollama.com/api/tags?a=1"
unfolding upstream_url codes
url = refl

upstream_headers-OnlyOurs_example :
    All (λ h. IsNamed private_names h → IsOurs three_keys (some 1) false h) to_upstream
unfolding upstream_headers authorization bearer secret_of codes text_eq starts_with
    to_ascii_lowercase lower
upstream_headers-OnlyOurs_example =
    upstream_headers-OnlyOurs three_keys (some 1) false from_client to_upstream refl

abbrev names : List Text
names = codes "content-type" ∷ codes "set-cookie" ∷ []

abbrev values : Text → List Text
values name = codes "v" ∷ codes "w" ∷ []

curated_response_headers-NoWithheld_example :
    All (λ h. ¬ IsNamed withheld_names h) (curated_response_headers names values)
unfolding codes to_ascii_lowercase lower
curated_response_headers-NoWithheld_example =
    curated_response_headers-NoWithheld names values (refl, (refl, tt))
