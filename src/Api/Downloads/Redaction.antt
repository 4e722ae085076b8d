-- ===== src/Api/Downloads/Redaction.antt =====
-- internal/api/downloads.go: what the log shows of an URL.
--
-- The query of an URL is url.Values; net/url parses and prints it.
use fuse_stream_mvp.Base.{
  ◌≡◌, refl, sym, subst, inl, inr, Bool, false, ◌||◌, Option, none, some, List, [], ◌∷◌, arith,
  if◌then◌else◌, Option-cases,
}
use fuse_stream_mvp.Base.Maps.{Map, Text, text_beq, text_beq_iff, get, put, text_eq, get-put}

-- url.Values
abbrev pub Params : Type 0
Params = Map Text (List Text)

-- "***REDACTED***"
abbrev pub redacted : Text
redacted =
    b'*' ∷ b'*' ∷ b'*' ∷ b'R' ∷ b'E' ∷ b'D' ∷ b'A' ∷ b'C' ∷ b'T' ∷ b'E' ∷ b'D' ∷ b'*' ∷ b'*' ∷ b'*'
    ∷ []

-- "access_token"
abbrev name_access_token : Text
name_access_token =
    b'a' ∷ b'c' ∷ b'c' ∷ b'e' ∷ b's' ∷ b's' ∷ b'_' ∷ b't' ∷ b'o' ∷ b'k' ∷ b'e' ∷ b'n' ∷ []

-- "token"
abbrev name_token : Text
name_token = b't' ∷ b'o' ∷ b'k' ∷ b'e' ∷ b'n' ∷ []

-- "api_key"
abbrev name_api_key : Text
name_api_key = b'a' ∷ b'p' ∷ b'i' ∷ b'_' ∷ b'k' ∷ b'e' ∷ b'y' ∷ []

-- "apikey"
abbrev name_apikey : Text
name_apikey = b'a' ∷ b'p' ∷ b'i' ∷ b'k' ∷ b'e' ∷ b'y' ∷ []

-- "secret"
abbrev name_secret : Text
name_secret = b's' ∷ b'e' ∷ b'c' ∷ b'r' ∷ b'e' ∷ b't' ∷ []

-- "password"
abbrev name_password : Text
name_password = b'p' ∷ b'a' ∷ b's' ∷ b's' ∷ b'w' ∷ b'o' ∷ b'r' ∷ b'd' ∷ []

abbrev pub sensitive_params : List Text
sensitive_params =
    name_access_token ∷ name_token ∷ name_api_key ∷ name_apikey ∷ name_secret ∷ name_password ∷ []

-- "[invalid-url]"
abbrev invalid_url : Text
invalid_url =
    b'[' ∷ b'i' ∷ b'n' ∷ b'v' ∷ b'a' ∷ b'l' ∷ b'i' ∷ b'd' ∷ b'-' ∷ b'u' ∷ b'r' ∷ b'l' ∷ b']' ∷ []

-- The loop over the names of parameters that are masked: `q.Has` and `q.Set`.
unfoldable pub mask : List Text → Params → Params
mask [] q = q
mask (name ∷ names) q = elim (get name q) [
  | none ↦ mask names q
  | some _ ↦ mask names (put name (redacted ∷ []) q)
]

abbrev pub is_among : Text → List Text → Bool
is_among name [] = false
is_among name (n ∷ ns) = text_beq n name || is_among name ns

abbrev pub masked : Option (List Text) → Option (List Text)
masked none = none
masked (some v) = some (redacted ∷ [])

pub get-mask :
    (name : Text) (names : List Text) (q : Params)
    → get name (mask names q) ≡ (if is_among name names then masked (get name q) else get name q)
unfolding mask
get-mask name [] q = refl
get-mask name (n ∷ ns) q = elim (Option-cases (get n q)) [
  | inl gone ↦ ground (arith, text_beq_iff n name, get-mask name ns q)
  | inr (v, e) ↦ ground (
    arith,
    text_beq_iff n name,
    get-mask name ns (put n (redacted ∷ []) q),
    get-put name n (redacted ∷ []) q,
  )
]

-- An URL of net/url, with url.Parse, URL.Query, the change of RawQuery to an encoded query, and
-- URL.String.
module _ (Url : Type 0) (parse : Text → Option Url) (query : Url → Params)
    (set_query : Params → Url → Url) (print : Url → Text) where
  unfoldable pub redact_url : Text → Text
  redact_url raw = elim (parse raw) [
    | none ↦ invalid_url
    | some u ↦ print (set_query (mask sensitive_params (query u)) u)
  ]

  -- The text of an URL with the same parameters, in which those that are sensitive are masked.
  abbrev pub IsRedacted : Url → Text → Type 0
  IsRedacted u text =
      (u' : Url) × (text ≡ print u')
      × ((name : Text)
          → get name (query u') ≡ (
              if is_among name sensitive_params
              then masked (get name (query u))
              else get name (query u)))

  -- Where an encoded query is read back as it was: redactURL prints an URL whose parameters are
  -- those of the URL given, except that the sensitive ones that it has are masked.
  pub redact_url-IsRedacted :
      (raw : Text) (u : Url)
      → ((q : Params) (v : Url) → query (set_query q v) ≡ q)
      → parse raw ≡ some u
      → IsRedacted u (redact_url raw)
  unfolding redact_url
  redact_url-IsRedacted raw u encodes e = (
    set_query (mask sensitive_params (query u)) u,
    rw (e, redact_url) refl,
    λ name.
        subst
          (λ q. get name q ≡ (
            if is_among name sensitive_params
            then masked (get name (query u))
            else get name (query u)))
          (sym (encodes (mask sensitive_params (query u)) u))
          (get-mask name sensitive_params (query u)),
  )
