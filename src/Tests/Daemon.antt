-- ===== src/Tests/Daemon.antt =====
-- internal/daemon/daemon.go: a daemon that ends with its context, and one that Shutdown ends.
use fuse_stream_mvp.Base.{◌≡◌, refl, true, List, [], ◌∷◌}
use fuse_stream_mvp.Base.Maps.{get, put}
use fuse_stream_mvp.Daemon.{
  new_process, Move, starts, context_ends, stops, ends, shuts_down, run, step, start, cancel,
  shutdown, worker_stops, worker_ends, worker_returns, close_complete, wait_for_shutdown,
}
use fuse_stream_mvp.Daemon.Orderly.{IsOrderly, run-IsOrderly}

abbrev by_context : List Move
by_context = starts true true ∷ context_ends 0 ∷ stops true 0 ∷ ends 0 ∷ []

run-IsOrderly_example : IsOrderly (run by_context new_process)
run-IsOrderly_example = run-IsOrderly by_context _

wait_ends : wait_for_shutdown (run by_context new_process) ≡ true
unfolding run step start cancel worker_stops worker_ends worker_returns close_complete
    wait_for_shutdown get put
wait_ends = refl

-- Shutdown takes the instance away whose channel the goroutine then closes.
shutdown_panics :
    (run (starts true true ∷ shuts_down ∷ stops true 0 ∷ ends 0 ∷ []) new_process).crashed ≡ true
unfolding run step start cancel shutdown worker_stops worker_ends worker_returns close_complete get
    put
shutdown_panics = refl
