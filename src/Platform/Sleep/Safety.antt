-- ===== src/Platform/Sleep/Safety.antt =====
-- internal/sleep/sleep_darwin.go: at most one assertion is held.
use fuse_stream_mvp.Base.{◌≡◌, true, List, [], ◌∷◌, arith, if◌then◌else◌, erase, ==_iff}
use fuse_stream_mvp.Platform.Sleep.{
  Assertion, does_nothing, releases, prevent_sleep_impl, run_release, Move, prevents, calls_release,
  step, run,
}

-- The system releases the assertion whenever it is asked to.
abbrev pub Complies : List Move → Type 0
Complies [] = Unit {0}
Complies (prevents c ∷ ms) = Complies ms
Complies (calls_release r released ∷ ms) = (released ≡ true) × Complies ms

-- The assertion that the program takes for active is the one that is held.
abbrev pub IsHeldOnce : Assertion → Type 0
IsHeldOnce a = a.held ≡ (if a.assertion_active then a.assertion_id ∷ [] else [])

step-IsHeldOnce :
    (m : Move) (a : Assertion) → Complies (m ∷ []) → IsHeldOnce a → IsHeldOnce (step m a)
unfolding step prevent_sleep_impl run_release erase
step-IsHeldOnce (prevents c) a h v = ground arith
step-IsHeldOnce (calls_release does_nothing b) a h v = v
step-IsHeldOnce (calls_release releases b) a h v =
    ground (arith, ==_iff a.assertion_id a.assertion_id)

-- While the system releases whatever it is asked to, and whatever calls of PreventSleep and of the
-- functions that it returns are made: the system holds the active assertion, once, and no other.
pub run-IsHeldOnce :
    (ms : List Move) (a : Assertion) → Complies ms → IsHeldOnce a → IsHeldOnce (run ms a)
unfolding run
run-IsHeldOnce [] a h v = v
run-IsHeldOnce (prevents c ∷ ms) a h v = run-IsHeldOnce ms _ h (step-IsHeldOnce (prevents c) a tt v)
run-IsHeldOnce (calls_release r b ∷ ms) a h v =
    run-IsHeldOnce ms _ h.1 (step-IsHeldOnce (calls_release r b) a (h.0, tt) v)
