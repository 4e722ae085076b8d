-- ===== src/Api/TokenCache.antt =====
-- internal/api/oauth.go: the cached OAuth token.
--
-- Times are in seconds. `Env` is what one call of GetToken meets: the clock at its two checks and at
-- the end, what another goroutine leaves in the cache before the lock is taken, and the answer of the
-- token request, `none` where the request, its status or its body is bad.
use fuse_stream_mvp.Base.{
  ℕ, ◌+◌, ◌≤◌, ◌<◌, ◌≡◌, refl, Bool, true, false, ◌&&◌, not, Option, none, some, [], arith, ltb,
  if◌then◌else◌, Bool-cases, Option-cases, ◌⊎◌, inl, inr,
}
use fuse_stream_mvp.Base.Maps.{Text, text_beq}

pub record TokenCache : Type 0 where
  pub token : Text
  pub expires_at : ℕ

pub record TokenResponse : Type 0 where
  pub access_token : Text
  pub expires_in : ℕ

pub record Env : Type 0 where
  pub first_check : ℕ
  pub meanwhile : TokenCache → TokenCache
  pub second_check : ℕ
  pub response : Option TokenResponse
  pub answered_at : ℕ

abbrev pub new_token_cache : TokenCache
new_token_cache = record { token = []; expires_at = 0 }

-- `tc.token != "" && time.Now().Before(tc.expiresAt.Add(-30*time.Second))`
unfoldable pub is_usable : ℕ → TokenCache → Bool
is_usable now tc = not (text_beq tc.token []) && ltb (now + 30) tc.expires_at

unfoldable pub fetch_token : Env → TokenCache → TokenCache × Option Text
fetch_token env tc = elim env.response [
  | none ↦ (tc, none)
  | some r ↦ (
    record { token = r.access_token; expires_at = env.answered_at + r.expires_in },
    some r.access_token,
  )
]

unfoldable pub get_token : Env → TokenCache → TokenCache × Option Text
get_token env tc =
    if is_usable env.first_check tc
    then (tc, some tc.token)
    else let tc' = env.meanwhile tc in
      if is_usable env.second_check tc' then (tc', some tc'.token) else fetch_token env tc'

-- `expiry` is the time up to which the service accepts a token.
module _ (expiry : Text → ℕ) where
  -- The cache is at most 30 seconds behind the service: the token is kept no longer than that.
  abbrev pub IsCurrent : TokenCache → Type 0
  IsCurrent tc = text_beq tc.token [] ≡ false → tc.expires_at ≤ expiry tc.token + 30

  -- A token is accepted for expires_in seconds from its issue, and the answer takes at most 30
  -- seconds, which is the timeout of the HTTP client.
  abbrev pub IsPrompt : Env → Type 0
  IsPrompt env =
      (r : TokenResponse)
      → env.response ≡ some r
      → env.answered_at + r.expires_in ≤ expiry r.access_token + 30

  -- What GetToken may give: a token that the service accepts at the check that chose it, or the one
  -- that the service has just sent.
  abbrev pub IsAccepted : Env → Option Text → Type 0
  IsAccepted env none = env.response ≡ none
  IsAccepted env (some t) =
      (env.first_check < expiry t)
      ⊎ ((env.second_check < expiry t)
          ⊎ ((r : TokenResponse) × (env.response ≡ some r) × (r.access_token ≡ t)))

  usable-live :
      (now : ℕ) (tc : TokenCache) → IsCurrent tc → is_usable now tc ≡ true → now < expiry tc.token
  unfolding is_usable
  usable-live now tc v e = ground (arith, v)

  fetch_token-IsAccepted :
      (env : Env) (tc : TokenCache)
      → IsPrompt env
      → IsCurrent tc
      → IsCurrent (fetch_token env tc).0 × IsAccepted env (fetch_token env tc).1
  unfolding fetch_token
  fetch_token-IsAccepted env tc prompt v = elim (Option-cases env.response) [
    | inl failed ↦ rw (failed, fetch_token) (v, refl)
    | inr (r, e) ↦ rw (e, fetch_token) ((λ named. prompt r e), inr (inr (r, refl, refl)))
  ]

  -- While answers take at most 30 seconds and other goroutines keep the cache current, GetToken keeps
  -- it current; a cached token that it gives is accepted by the service at the time of the check, and
  -- it fails only when the token request failed.
  pub get_token-IsAccepted :
      (env : Env) (tc : TokenCache)
      → IsPrompt env
      → ((tc' : TokenCache) → IsCurrent tc' → IsCurrent (env.meanwhile tc'))
      → IsCurrent tc
      → IsCurrent (get_token env tc).0 × IsAccepted env (get_token env tc).1
  unfolding get_token
  get_token-IsAccepted env tc prompt keeps v = elim (Bool-cases (is_usable env.first_check tc)) [
    | inl e ↦ rw (e, get_token) (v, inl (usable-live env.first_check tc v e))
    | inr e ↦
        let tc' = env.meanwhile tc in
        let w = keeps tc v in
        elim (Bool-cases (is_usable env.second_check tc')) [
          | inl f ↦ rw (e, f, get_token) (w, inr (inl (usable-live env.second_check tc' w f)))
          | inr f ↦ rw (e, f, get_token) (fetch_token-IsAccepted env tc' prompt w)
        ]
  ]
