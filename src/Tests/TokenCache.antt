-- ===== src/Tests/TokenCache.antt =====
-- internal/api/oauth.go: a first token.
use fuse_stream_mvp.Base.{ℕ, some, [], ◌∷◌, arith}
use fuse_stream_mvp.Base.Maps.{Text}
use fuse_stream_mvp.Api.TokenCache.{
  Env, new_token_cache, get_token, IsCurrent, IsPrompt, IsAccepted, get_token-IsAccepted,
}

-- The service accepts the tokens up to 3605.
abbrev expiry : Text → ℕ
expiry token = 3605

abbrev env : Env
env = record {
  first_check = 4;
  meanwhile = λ tc. tc;
  second_check = 4;
  response = some (record { access_token = b't' ∷ []; expires_in = 3600 });
  answered_at = 7;
}

env-IsPrompt : IsPrompt expiry env
env-IsPrompt r e = ground arith

get_token-IsAccepted_example :
    IsCurrent expiry (get_token env new_token_cache).0
    × IsAccepted expiry env (get_token env new_token_cache).1
get_token-IsAccepted_example =
    get_token-IsAccepted expiry env new_token_cache env-IsPrompt (λ tc v. v) (λ e. omega arith)
