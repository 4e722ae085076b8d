-- ===== src/Tests/Platform.antt =====
-- internal/appnap/appnap_darwin.go: an activity that begins, ends and begins again.
use fuse_stream_mvp.Base.{true, List, [], ◌∷◌, arith}
use fuse_stream_mvp.Platform.AppNap.{no_activity, ends_activity, Move, prevents, calls_release, run}
use fuse_stream_mvp.Platform.AppNap.Safety.{IsExact, run-IsExact}

abbrev moves : List Move
moves =
    prevents true ∷ calls_release ends_activity ∷ calls_release ends_activity ∷ prevents true ∷ []

no_activity-IsExact : IsExact no_activity
no_activity-IsExact = record { on = λ e. absurd (ground arith); off = λ e. tt }

run-IsExact_example : IsExact (run moves no_activity)
run-IsExact_example = run-IsExact moves no_activity no_activity-IsExact
