-- ===== src/Tests/Watchdog.antt =====
-- internal/fs/watchdog.go: a watchdog that is started, stopped twice and started again.
use fuse_stream_mvp.Base.{◌≡◌, true, List, [], ◌∷◌}
use fuse_stream_mvp.Fs.Watchdog.{new_watchdog}
use fuse_stream_mvp.Fs.Watchdog.Restarts.{Call, starts, stops, run, panics_iff_restarted}

abbrev calls : List Call
calls = starts ∷ stops ∷ stops ∷ starts ∷ []

panics_iff_restarted_example : (run calls new_watchdog).panicked ≡ true
panics_iff_restarted_example = panics_iff_restarted calls
