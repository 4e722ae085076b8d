-- ===== src/Logging/FileLogger/Opening.antt =====
-- internal/logging/logger.go: the log files from Init on.
use fuse_stream_mvp.Base.{
  ℕ, ◌+◌, ◌≤◌, ◌<◌, ◌≡◌, refl, inl, inr, Bool, not, true, false, List, [], arith, ltb, ◌&&◌,
  if◌then◌else◌, length, length-append, Option-cases, either, either_of, ltb→lt,
}
use fuse_stream_mvp.Logging.FileLogger.{
  max_log_file_size, log_channel_buffer, Host, FileLogger, content, exists, start_log,
  rotate_logs_locked, rotated, open_log, open_log_file, Event, run_log,
}
use fuse_stream_mvp.Logging.FileLogger.Bounds.{
  IsBounded, AllShort, IsSmall, AllFit, limit, append_log-IsBounded, rotate_logs_locked-IsSmall,
  run_log-IsSmall,
}

-- A logger that Init makes, before it opens the log.
pub record IsNew (l : FileLogger) : Type 0 where
  pub shut : l.file_open ≡ false
  pub empty : l.log_chan ≡ []
  pub fresh : l.size ≡ 0

-- Where no error is returned, the log is open.
record Opened (r : FileLogger × Bool) : Type 0 where
  opened : r.1 ≡ true → r.0.file_open ≡ true

start_log-Opened : (h : Host) (l : FileLogger) → Opened (start_log h l)
unfolding start_log
start_log-Opened h l =
    either Opened (exists (l.disk 0) && not (h.renames 0))
      (record { opened = λ e. absurd (ground arith) })
      (either Opened h.opens (record { opened = λ e. refl })
        (record { opened = λ e. absurd (ground arith) }))

rotate_logs_locked-Opened : (h : Host) (l : FileLogger) → Opened (rotate_logs_locked h l)
unfolding rotate_logs_locked
rotate_logs_locked-Opened h l =
    either Opened (l.file_open && not h.closes) (record { opened = λ e. absurd (ground arith) })
      (start_log-Opened h _)

module _ (longest marker : ℕ) where
  open_log-IsSmall :
      (h : Host) (l : FileLogger)
      → IsBounded (limit longest marker) l.disk
      → length (content (l.disk 0)) ≤ l.size + marker
      → l.size < max_log_file_size
      → AllShort longest marker l.log_chan
      → length l.log_chan ≤ log_channel_buffer
      → IsSmall longest marker (open_log h l).0
  unfolding open_log
  open_log-IsSmall h l v log below queued room =
      either (λ (r : FileLogger × Bool). IsSmall longest marker r.0) h.opens
        (record {
          each = append_log-IsBounded (limit longest marker) [] l.disk (omega (arith, v 0)) v;
          held = λ e. (omega (arith, length-append (content (l.disk 0)) []), below);
          queued = queued;
          room = room;
        })
        (record { each = v; held = λ e. (log, below); queued = queued; room = room })

  -- Behind a rotation the log is opened once more.
  reopen-IsSmall :
      (h : Host) (r : FileLogger × Bool)
      → (r.1 ≡ true → r.0.file_open ≡ true)
      → IsSmall longest marker (rotated r)
      → IsSmall longest marker
          (if r.1 then open_log h (record r.0 { size = 0 }) else (r.0, false)).0
  reopen-IsSmall h (l, true) opened v =
      let (log, below) = v.held (opened refl) in
      open_log-IsSmall h (record l { size = 0 }) v.each log below v.queued v.room
  reopen-IsSmall h (l, false) opened v = v

  open_log_file-IsSmall :
      (h : Host) (l : FileLogger)
      → IsNew l
      → length h.marker ≤ marker
      → IsBounded (limit longest marker) l.disk
      → IsSmall longest marker (open_log_file h l).0
  unfolding open_log_file
  open_log_file-IsSmall h l n short v =
      let S : FileLogger × Bool → Type 0 = λ r. IsSmall longest marker r.0 in
      let queued : AllShort longest marker l.log_chan = rw n.empty _ in
      let room : length l.log_chan ≤ log_channel_buffer = rw n.empty (omega arith) in
      let closed : IsSmall longest marker l = record {
        each = v;
        held = λ e. absurd (ground (arith, n.shut));
        queued = queued;
        room = room;
      } in
      elim (Option-cases (l.disk 0)) [
        | inl missing ↦
            rw (missing, open_log_file)
              (either S h.stats
                (open_log-IsSmall h l v (rw missing (omega arith)) (omega (arith, n.fresh)) queued
                  room)
                closed)
        | inr (b, there) ↦
            let sized : FileLogger = record l { size = length b } in
            rw (there, open_log_file)
              (either S (not h.stats) closed (
                either_of S (ltb (length b) max_log_file_size)
                  (λ fits.
                    open_log-IsSmall h sized v (rw there (omega arith)) (ltb→lt _ _ fits) queued
                      room)
                  λ full.
                    reopen-IsSmall h (rotate_logs_locked h sized)
                      (rotate_logs_locked-Opened h sized).opened
                      (rotate_logs_locked-IsSmall longest marker h sized (rw n.shut refl) short v
                        queued room)))
      ]

  -- From Init on, on a disk whose log files are within the limit: whatever renames, removals and openings
  -- fail, with messages and markers of a bounded length, writes that come through and a file that closes,
  -- no log file ever has more than the size of a rotation, one message and one marker, and the channel
  -- has at most 1000 messages.
  pub opened_log-IsSmall :
      (h : Host) (l : FileLogger) (es : List Event)
      → IsNew l
      → length h.marker ≤ marker
      → IsBounded (limit longest marker) l.disk
      → AllFit longest marker es
      → IsSmall longest marker (run_log es (open_log_file h l).0)
  opened_log-IsSmall h l es n short v fit =
      run_log-IsSmall longest marker es (open_log_file h l).0 fit
        (open_log_file-IsSmall h l n short v)
