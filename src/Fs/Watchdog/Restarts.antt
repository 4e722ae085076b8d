-- ===== src/Fs/Watchdog/Restarts.antt =====
-- internal/fs/watchdog.go: which calls of start and stop close a channel twice.
use fuse_stream_mvp.Base.{◌≡◌, refl, arith, Bool, true, false, List, [], ◌∷◌, if◌then◌else◌}
use fuse_stream_mvp.Fs.Watchdog.{Watchdog, new_watchdog, start, stop, monitor_ends}

pub data Call : Type 0 where
  starts stops : Call

unfoldable pub call : Call → Watchdog → Watchdog
call starts w = start w
call stops w = stop w

unfoldable pub run : List Call → Watchdog → Watchdog
run [] w = w
run (c ∷ cs) w = run cs (call c w)

abbrev same_call : Call → Call → Bool
same_call starts starts = true
same_call stops stops = true
same_call _ _ = false

-- The calls of `wanted` are made, in this order, with any others between them.
abbrev pub makes : List Call → List Call → Bool
makes [] calls = true
makes (w ∷ ws) [] = false
makes (w ∷ ws) (c ∷ cs) = if same_call w c then makes ws cs else makes (w ∷ ws) cs

-- A watchdog that runs, and one that was stopped.
abbrev running : Watchdog
running = record new_watchdog { enabled = true }

abbrev stopped : Watchdog
stopped = record new_watchdog { stop_closed = true; stopped_closed = true }

call-panicked : (c : Call) (w : Watchdog) → w.panicked ≡ true → (call c w).panicked ≡ true
unfolding call start stop monitor_ends
call-panicked starts w e = ground arith
call-panicked stops w e = ground arith

run-panicked : (cs : List Call) (w : Watchdog) → w.panicked ≡ true → (run cs w).panicked ≡ true
unfolding run
run-panicked [] w e = e
run-panicked (c ∷ cs) w e = run-panicked cs (call c w) (call-panicked c w e)

run-stopped : (cs : List Call) → (run cs stopped).panicked ≡ makes (starts ∷ []) cs
unfolding run call start stop monitor_ends
run-stopped [] = refl
run-stopped (starts ∷ cs) = run-panicked cs (call starts stopped) refl
run-stopped (stops ∷ cs) = run-stopped cs

run-running : (cs : List Call) → (run cs running).panicked ≡ makes (stops ∷ starts ∷ []) cs
unfolding run call start stop monitor_ends
run-running [] = refl
run-running (starts ∷ cs) = run-running cs
run-running (stops ∷ cs) = run-stopped cs

-- Whatever calls of start and stop are made one after the other on a new watchdog, it closes a
-- channel twice, which panics, exactly when some start, a later stop and a still later start are
-- among them.
pub panics_iff_restarted :
    (calls : List Call)
    → (run calls new_watchdog).panicked ≡ makes (starts ∷ stops ∷ starts ∷ []) calls
unfolding run call start stop monitor_ends
panics_iff_restarted [] = refl
panics_iff_restarted (starts ∷ cs) = run-running cs
panics_iff_restarted (stops ∷ cs) = panics_iff_restarted cs
