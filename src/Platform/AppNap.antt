-- ===== src/Platform/AppNap.antt =====
-- internal/appnap/appnap_darwin.go: the activity that keeps App Nap away.
--
-- `activity_tokens` is the array of the C code: true of an activity that goes on, false of an ended
-- one, whose place is NSNull.
pub mod Safety
use fuse_stream_mvp.Base.{
  ℕ, zero, suc, Bool, true, false, not, Option, none, some, List, [], ◌∷◌, ◌++◌, if◌then◌else◌,
  length,
}

pub record Activity : Type 0 where
  pub token_id : ℕ
  pub token_valid : Bool
  pub activity_tokens : List Bool

abbrev pub no_activity : Activity
no_activity = record { token_id = 0; token_valid = false; activity_tokens = [] }

pub data Release : Type 0 where
  does_nothing ends_activity : Release

-- `FSMVP_BeginActivity`: `begins` says whether the system gives a token; `none` is -1.
unfoldable pub begin_activity : Bool → List Bool → List Bool × Option ℕ
begin_activity begins tokens =
    if begins then (tokens ++ true ∷ [], some (length tokens)) else (tokens, none)

-- `FSMVP_EndActivity`, with whether it returns 0.
unfoldable pub end_activity : ℕ → List Bool → List Bool × Bool
end_activity k [] = ([], false)
end_activity zero (t ∷ ts) = (false ∷ ts, t)
end_activity (suc k) (t ∷ ts) = let (ts', ended) = end_activity k ts in (t ∷ ts', ended)

-- The rest behind the begin.
unfoldable pub keep_token : Activity → List Bool × Option ℕ → Activity × Option Release
keep_token a (tokens, none) = (record a { activity_tokens = tokens }, none)
keep_token a (tokens, some tid) =
    (record { token_id = tid; token_valid = true; activity_tokens = tokens }, some ends_activity)

unfoldable pub prevent_app_nap_impl : Bool → Activity → Activity × Option Release
prevent_app_nap_impl begins a =
    if a.token_valid
    then (a, some does_nothing)
    else keep_token a (begin_activity begins a.activity_tokens)

unfoldable pub run_release : Release → Activity → Activity
run_release does_nothing a = a
run_release ends_activity a = if not a.token_valid then a else record a {
  activity_tokens = (end_activity a.token_id a.activity_tokens).0;
  token_valid = false;
}

pub data Move : Type 0 where
  prevents : Bool → Move
  calls_release : Release → Move

unfoldable pub step : Move → Activity → Activity
step (prevents begins) a = (prevent_app_nap_impl begins a).0
step (calls_release r) a = run_release r a

unfoldable pub run : List Move → Activity → Activity
run [] a = a
run (m ∷ ms) a = run ms (step m a)
