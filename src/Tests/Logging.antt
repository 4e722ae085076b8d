-- ===== src/Tests/Logging.antt =====
-- internal/logging: three messages, a flush, and the end of the logger.
use fuse_stream_mvp.Base.{
  false, Bool, not, ℕ, ◌==◌, if◌then◌else◌, arith, ◌≡◌, refl, true, List, [], ◌∷◌, some, none,
}
use fuse_stream_mvp.Logging.FuseLogger.{
  Entry, Writes, new_logger, Event, logs, receives, ticks, drains, sees_done, closes, run,
  log_non_blocking, write_entry, write_entries, flush_batch, receive, tick, drain, close_file, step,
}
use fuse_stream_mvp.Logging.FuseLogger.Batches.{Refines, WorksFor}
use fuse_stream_mvp.Logging.FuseLogger.Order.{logged, run-Refines}
use fuse_stream_mvp.Logging.FileLogger.{
  Host, FileLogger, rotate_logs_locked, open_log_file, run_log,
}
use fuse_stream_mvp.Logging.FileLogger
use fuse_stream_mvp.Logging.FileLogger.Rotation.{shifted, Works, rotate_logs_locked-shifted}
use fuse_stream_mvp.Logging.FileLogger.Bounds.{IsSmall}
use fuse_stream_mvp.Logging.FileLogger.Opening.{opened_log-IsSmall}

abbrev entry : ℕ → Entry
entry n = record { timestamp = n; message = n ∷ [] }

-- The second message does not get to the standard output.
abbrev shows : Entry → Bool
shows e = not (e.timestamp == 2)

abbrev works : Writes
works = record { file_takes = λ e. true; stdout_takes = shows }

abbrev events : List Event
events =
    logs (entry 1)
    ∷ receives works
    ∷ logs (entry 2)
    ∷ ticks works
    ∷ sees_done
    ∷ logs (entry 3)
    ∷ drains works
    ∷ drains works
    ∷ drains works
    ∷ closes
    ∷ []

works-WorksFor : WorksFor shows works
works-WorksFor e = (refl, refl)

run-Refines_example : Refines shows (logged events) (run events new_logger)
run-Refines_example =
    run-Refines shows events
      (works-WorksFor, (works-WorksFor, (works-WorksFor, (works-WorksFor, (works-WorksFor, _)))))

run_closed : (run events new_logger).file ≡ entry 1 ∷ entry 2 ∷ entry 3 ∷ []
unfolding run step log_non_blocking receive tick drain close_file flush_batch write_entries
    write_entry
run_closed = refl

-- A system that does all it is asked.
abbrev host : Host
host = record {
  stats = true;
  closes = true;
  removes = true;
  renames = λ i. true;
  opens = true;
  write_limit = none;
  marker = 61 ∷ [];
}

host-Works : Works host
host-Works = record { closes = refl; removes = refl; renames = λ i. refl; opens = refl }

-- A log of two bytes, and one rotated file.
abbrev logger : FileLogger
logger = record {
  disk = λ k. if k == 0 then some (1 ∷ 2 ∷ []) else if k == 1 then some (9 ∷ []) else none;
  file_open = true;
  size = 2;
  log_chan = [];
  stdout = [];
}

rotate_logs_locked-shifted_example :
    ((rotate_logs_locked host logger).0.disk 2 ≡ shifted (61 ∷ []) logger.disk 2)
    × ((rotate_logs_locked host logger).1 ≡ true)
    × ((rotate_logs_locked host logger).0.file_open ≡ true)
rotate_logs_locked-shifted_example = rotate_logs_locked-shifted host logger 2 host-Works

-- The same before Init opens it.
abbrev unopened : FileLogger
unopened = record logger { file_open = false; size = 0 }

abbrev file_events : List FileLogger.Event
file_events = FileLogger.writes (4 ∷ 5 ∷ []) ∷ FileLogger.receives host ∷ []

opened_log-IsSmall_example : IsSmall 3 1 (run_log file_events (open_log_file host unopened).0)
opened_log-IsSmall_example =
    opened_log-IsSmall 3 1 host unopened file_events
      (record { shut = refl; empty = refl; fresh = refl }) (omega arith) (λ k. ground arith)
      (omega arith, (refl, refl, omega arith, _))
