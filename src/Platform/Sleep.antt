-- ===== src/Platform/Sleep.antt =====
-- internal/sleep/sleep_darwin.go: the power assertion that keeps the system awake.
--
-- `held` lists the assertions that the system holds for the process. A caller of PreventSleep keeps the
-- function that it returns and may call it at any time and more than once.
pub mod Safety
use fuse_stream_mvp.Base.{
  ℕ, Bool, true, false, not, Option, none, some, List, [], ◌∷◌, if◌then◌else◌, erase,
}

pub record Assertion : Type 0 where
  pub assertion_id : ℕ
  pub assertion_active : Bool
  pub held : List ℕ

abbrev pub no_assertion : Assertion
no_assertion = record { assertion_id = 0; assertion_active = false; held = [] }

-- The function that PreventSleep returns.
pub data Release : Type 0 where
  does_nothing releases : Release

-- `created` is the assertion that the system makes, `none` where it fails; the release is `none` where
-- there is an error.
unfoldable pub prevent_sleep_impl : Option ℕ → Assertion → Assertion × Option Release
prevent_sleep_impl created a = if a.assertion_active then (a, some does_nothing) else elim created [
  | none ↦ (a, none)
  | some aid ↦
      (record { assertion_id = aid; assertion_active = true; held = aid ∷ a.held }, some releases)
]

-- `released` says whether the system releases the assertion.
unfoldable pub run_release : Release → Bool → Assertion → Assertion
run_release does_nothing released a = a
run_release releases released a = if not a.assertion_active then a else record a {
  held = if released then erase a.assertion_id a.held else a.held;
  assertion_active = false;
}

pub data Move : Type 0 where
  prevents : Option ℕ → Move
  calls_release : Release → Bool → Move

unfoldable pub step : Move → Assertion → Assertion
step (prevents created) a = (prevent_sleep_impl created a).0
step (calls_release r released) a = run_release r released a

unfoldable pub run : List Move → Assertion → Assertion
run [] a = a
run (m ∷ ms) a = run ms (step m a)
