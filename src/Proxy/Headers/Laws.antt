-- ===== src/Proxy/Headers/Laws.antt =====
-- src/proxy.rs: which headers cross the proxy.
use ollamux.Base.{
  ℕ, ◌≡◌, refl, sym, ap, ◌∙◌, subst, Bool, true, false, not, Option, none, some, List, [], ◌∷◌,
  ◌++◌, map, any, filter, all, All, Bool-cases, Option-cases, inl, inr, Text, codes, text_eq,
  text_eq_sound, starts_with, arith,
}
use ollamux.Base.Ascii.{to_ascii_lowercase, lower, eq_ignore_ascii_case}
use ollamux.Pool.{Pool, secret_of}
use ollamux.Proxy.Headers.{
  Header, is_in, is_skipped, curated_request_headers, skipped_of_response, curated_response_headers,
  bearer, authorization, identity_encoding, upstream_headers,
}

module _ {ℓ} {A : Type ℓ} where
  any-all :
      (p q : A → Bool) (xs : List A)
      → any p xs ≡ true
      → all q xs ≡ true
      → (x : A) × (p x ≡ true) × (q x ≡ true)
  any-all p q [] e h = cc
  any-all p q (x ∷ xs) e h = elim (Bool-cases (p x)) [
    | inl found ↦ (x, found, ground arith)
    | inr other ↦ any-all p q xs (ground arith) (ground arith)
  ]

  All-filter {κ} :
      (P : A → Type κ) (p : A → Bool) (xs : List A)
      → ((x : A) → p x ≡ true → P x)
      → All P (filter p xs)
  All-filter P p [] h = tt
  All-filter P p (x ∷ xs) h = elim (Bool-cases (p x)) [
    | inl kept ↦ rw kept (h x kept, All-filter P p xs h)
    | inr left ↦ rw left (All-filter P p xs h)
  ]

  All-append {κ} : (P : A → Type κ) (xs ys : List A) → All P xs → All P ys → All P (xs ++ ys)
  All-append P [] ys h k = k
  All-append P (x ∷ xs) ys h k = (h.0, All-append P xs ys h.1 k)

  All-map {κ μ} :
      {B : Type κ} (P : B → Type μ) (f : A → B) (xs : List A)
      → ((x : A) → P (f x))
      → All P (map f xs)
  All-map P f [] h = tt
  All-map P f (x ∷ xs) h = (h x, All-map P f xs h)

-- The client's credentials, and what belongs to one connection only.
abbrev pub private_names : List Text
private_names =
    codes "authorization"
    ∷ codes "proxy-authorization"
    ∷ codes "cookie"
    ∷ codes "host"
    ∷ codes "connection"
    ∷ codes "keep-alive"
    ∷ codes "transfer-encoding"
    ∷ codes "content-length"
    ∷ codes "upgrade"
    ∷ codes "te"
    ∷ codes "trailer"
    ∷ codes "expect"
    ∷ []

-- A header of that name, in whatever case.
abbrev pub IsNamed : List Text → Header → Type 0
IsNamed names h = any (eq_ignore_ascii_case h.0) names ≡ true

private_skipped : all (λ n. is_skipped (to_ascii_lowercase n)) private_names ≡ true
unfolding is_skipped to_ascii_lowercase lower codes text_eq starts_with
private_skipped = refl

same_name :
    (s t : Text) → eq_ignore_ascii_case s t ≡ true → to_ascii_lowercase s ≡ to_ascii_lowercase t
unfolding eq_ignore_ascii_case
same_name s t e = text_eq_sound (to_ascii_lowercase s) (to_ascii_lowercase t) e

-- The header that carries the secret of the key.
abbrev pub IsOurs : Pool → Option ℕ → Bool → Header → Type 0
IsOurs p key no_auth h =
    (k : ℕ) × (secret : Text) × (key ≡ some k)
    × (no_auth ≡ false)
    × (secret_of p k ≡ some secret)
    × (h ≡ bearer secret)

curated-NoPrivate :
    (hs : List Header) → All (λ h. ¬ IsNamed private_names h) (curated_request_headers hs)
unfolding curated_request_headers
curated-NoPrivate hs =
    All-filter (λ h. ¬ IsNamed private_names h) (λ h. not (is_skipped (to_ascii_lowercase h.0))) hs
      (λ h kept named.
        let (n, same, skipped) =
          any-all (eq_ignore_ascii_case h.0) (λ n. is_skipped (to_ascii_lowercase n)) private_names
            named private_skipped in
        let shut : is_skipped (to_ascii_lowercase h.0) ≡ true =
          ap is_skipped (same_name h.0 n same) ∙ skipped in
        ground arith)

encoding-NotPrivate : ¬ IsNamed private_names identity_encoding
unfolding eq_ignore_ascii_case to_ascii_lowercase lower codes text_eq
encoding-NotPrivate e = cc

authorization-IsOurs :
    (p : Pool) (key : Option ℕ) (no_auth : Bool) (auth : List Header)
    → authorization p key no_auth ≡ some auth
    → All (λ h. IsNamed private_names h → IsOurs p key no_auth h) auth
unfolding authorization
authorization-IsOurs p none no_auth auth e =
    subst (All (λ h. IsNamed private_names h → IsOurs p none no_auth h)) {x = []} {y = auth}
      (ground arith) tt
authorization-IsOurs p (some key) true auth e =
    subst (All (λ h. IsNamed private_names h → IsOurs p (some key) true h)) {x = []} {y = auth}
      (ground arith) tt
authorization-IsOurs p (some key) false auth e = elim (Option-cases (secret_of p key)) [
  | inl panic ↦ absurd (ground arith)
  | inr (secret, found) ↦
      subst (All (λ h. IsNamed private_names h → IsOurs p (some key) false h))
        {x = bearer secret ∷ []} {y = auth} (ground arith)
        (λ n. (key, secret, refl, refl, found, refl), tt)
]

-- No credential of the client and no header of its connection reaches the upstream, in whatever
-- case its name is written: what an attempt sets with such a name is the pool's own
-- `Authorization`, with the secret of the attempt's key, and only if the path wants a key.
pub upstream_headers-OnlyOurs :
    (p : Pool) (key : Option ℕ) (no_auth : Bool) (headers calls : List Header)
    → upstream_headers p key no_auth headers ≡ some calls
    → All (λ h. IsNamed private_names h → IsOurs p key no_auth h) calls
unfolding upstream_headers
upstream_headers-OnlyOurs p key no_auth headers calls e =
    elim (Option-cases (authorization p key no_auth)) [
      | inl panic ↦ absurd (ground arith)
      | inr (auth, given) ↦
          subst (All (λ h. IsNamed private_names h → IsOurs p key no_auth h))
            {x = curated_request_headers headers ++ (auth ++ identity_encoding ∷ [])} {y = calls}
            (ground arith)
            (All-append _ (curated_request_headers headers) _
              (forwarded (curated_request_headers headers) (curated-NoPrivate headers))
              (All-append _ auth _ (authorization-IsOurs p key no_auth auth given)
                (λ n. absurd (encoding-NotPrivate n), tt)))
    ]
  where
    forwarded :
        (hs : List Header)
        → All (λ h. ¬ IsNamed private_names h) hs
        → All (λ h. IsNamed private_names h → IsOurs p key no_auth h) hs
    forwarded [] a = tt
    forwarded (h ∷ hs) a = (λ n. absurd (a.0 n), forwarded hs a.1)

-- What the proxy keeps to itself or frames anew.
abbrev pub withheld_names : List Text
withheld_names =
    codes "set-cookie"
    ∷ codes "alt-svc"
    ∷ codes "connection"
    ∷ codes "keep-alive"
    ∷ codes "transfer-encoding"
    ∷ codes "content-length"
    ∷ codes "upgrade"
    ∷ codes "te"
    ∷ codes "trailer"
    ∷ []

skipped_withheld : all (λ n. is_in (to_ascii_lowercase n) skipped_of_response) withheld_names ≡ true
unfolding to_ascii_lowercase lower codes text_eq
skipped_withheld = refl

kept-NotWithheld :
    (name : Text)
    → to_ascii_lowercase name ≡ name
    → is_in name skipped_of_response ≡ false
    → (value : Text) → ¬ IsNamed withheld_names (name, value)
kept-NotWithheld name low kept value named =
    let (n, same, skipped) =
      any-all (eq_ignore_ascii_case name) (λ n. is_in (to_ascii_lowercase n) skipped_of_response)
        withheld_names named skipped_withheld in
    let shut : is_in name skipped_of_response ≡ true =
      ap (λ m. is_in m skipped_of_response) (sym low ∙ same_name name n same) ∙ skipped in
    ground arith

-- If the names of the upstream's headers are given in lower case, the headers that are relayed to
-- the client hold no cookie, no `Alt-Svc` and nothing about framing or the connection, in whatever
-- case the name is read.
pub curated_response_headers-NoWithheld :
    (names : List Text) (values : Text → List Text)
    → All (λ n. to_ascii_lowercase n ≡ n) names
    → All (λ h. ¬ IsNamed withheld_names h) (curated_response_headers names values)
unfolding curated_response_headers
curated_response_headers-NoWithheld [] values low = tt
curated_response_headers-NoWithheld (name ∷ names) values low =
    let rest = curated_response_headers-NoWithheld names values low.1 in
    elim (Bool-cases (is_in name skipped_of_response)) [
      | inl skipped ↦ rw skipped rest
      | inr kept ↦ rw kept (
          All-append _ (map (λ value. (name, value)) (values name))
            (curated_response_headers names values)
            (All-map _ (λ value. (name, value)) (values name) (kept-NotWithheld name low.0 kept))
            rest)
    ]
