-- ===== src/Api/Downloads.antt =====
-- internal/api/downloads.go: the temporary URL of a file.
--
-- `Env` is what one call meets: the token request, and the service's answer to the query, `none` where
-- the request fails.
pub mod Redaction
use fuse_stream_mvp.Base.{
  ℕ, ◌≡◌, ◌≢◌, ◌≤◌, ◌<◌, ◌↔◌, refl, inl, inr, Bool, true, false, ◌||◌, Option, none, some, List, [],
  ◌∷◌, ltb, leb, ◌>>=◌, arith, if◌then◌else◌, Bool-cases, Option-cases,
}
use fuse_stream_mvp.Base.Maps.{
  Map, Text, text_beq, text_beq_iff, text_beq_refl, get, put, text_eq, get-put,
}
use fuse_stream_mvp.Api.TokenCache
use fuse_stream_mvp.Api.TokenCache.{TokenCache, get_token}

pub record DownloadQuery : Type 0 where
  pub token : Text
  pub file_id : Text
  pub autograph_tag : Text

-- The status and the Location header, empty where there is none.
pub record Answer : Type 0 where
  pub status : ℕ
  pub location : Text

pub record Env : Type 0 where
  pub token : TokenCache.Env
  pub service : DownloadQuery → Option Answer

-- The checks of the answer.
unfoldable pub location_of : Answer → Option Text
location_of a =
    if ltb a.status 300 || leb 400 a.status
    then none
    else if text_beq a.location []
    then none
    else some a.location

unfoldable pub request_location : Env → Text → Text → Option Text → Option Text
request_location env file_id tag token = do
  t ← token
  a ← env.service (record { token = t; file_id = file_id; autograph_tag = tag })
  location_of a

-- `none` is an error.
unfoldable pub build_temp_url : Env → Text → Text → TokenCache → TokenCache × Option Text
build_temp_url env file_id tag tc =
    let (tc', token) = get_token env.token tc in (tc', request_location env file_id tag token)

-- A redirect with a Location.
pub record Redirects (a : Answer) (url : Text) : Type 0 where
  pub at_least : 300 ≤ a.status
  pub below : a.status < 400
  pub location : a.location ≡ url
  pub given : url ≢ []

-- The service has answered the call with a redirect to this URL.
abbrev pub IsRedirect : Env → Text → Text → TokenCache → Text → Type 0
IsRedirect env file_id tag tc url =
    (t : Text) × (a : Answer) × ((get_token env.token tc).1 ≡ some t)
    × (env.service (record { token = t; file_id = file_id; autograph_tag = tag }) ≡ some a)
    × Redirects a url

location_of_iff : (a : Answer) (url : Text) → (location_of a ≡ some url) ↔ Redirects a url
unfolding location_of
location_of_iff a url = (
  λ h. record {
    at_least = ground arith;
    below = ground arith;
    location = ground arith;
    given = ground (arith, text_beq_iff a.location []);
  },
  λ r. ground (arith, r.at_least, r.below, r.location, r.given, text_beq_iff a.location []),
)

-- BuildTempURL gives exactly the Location, which is not empty, of a redirect with which the service
-- has answered its request, made with the token of the cache.
pub build_temp_url_iff :
    (env : Env) (file_id tag : Text) (tc : TokenCache) (url : Text)
    → ((build_temp_url env file_id tag tc).1 ≡ some url) ↔ IsRedirect env file_id tag tc url
unfolding build_temp_url request_location
build_temp_url_iff env file_id tag tc url = (
  λ h. elim (Option-cases (get_token env.token tc).1) [
    | inl gone ↦ absurd (ground arith)
    | inr (t, e) ↦
        let q : DownloadQuery = record { token = t; file_id = file_id; autograph_tag = tag } in
        elim (Option-cases (env.service q)) [
          | inl failed ↦ absurd (ground arith)
          | inr (a, answered) ↦
              let given : location_of a ≡ some url = ground arith in
              (t, a, e, answered, (location_of_iff a url).0 given)
        ]
  ],
  λ (t, a, e, answered, rest). rw (e, answered, request_location) ((location_of_iff a url).1 rest),
)
