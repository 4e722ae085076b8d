-- ===== src/Logging/FuseLogger.antt =====
-- internal/logging/fuse_logger.go: log messages that callbacks queue and a goroutine writes.
--
-- An event is one choice of the scheduler: a call of logNonBlocking, or a turn of writerLoop. The file
-- and the standard output are the entries whose whole line was written to them: the part of a line
-- that a failed WriteString leaves is left out. `Writes` says for which entries WriteString succeeds
-- during a flush. `l.dropped++` is not atomic: a callback reads the counter, and a later event `counts`
-- stores what it read and one more.
pub mod Batches
pub mod Order
use fuse_stream_mvp.Base.{
  ℕ, zero, suc, ◌+◌, ◌*◌, Bool, true, false, Option, none, some, List, [], ◌∷◌, ◌++◌, not, ltb, leb,
  if◌then◌else◌, length, contains, erase,
}
use fuse_stream_mvp.Base.Maps.{Text}
use fuse_stream_mvp.Base.Words.{u64}

pub record Entry : Type 0 where
  pub timestamp : ℕ
  pub message : Text

-- The standard output takes nothing where there is none.
pub record Writes : Type 0 where
  pub file_takes : Entry → Bool
  pub stdout_takes : Entry → Bool

-- Where writerLoop is: in its loop, draining the channel, or returned.
pub data Phase : Type 0 where
  running draining stopped : Phase

-- The line with which Close ends the file: what was written, and what was dropped where it says so.
pub record Stats : Type 0 where
  pub written : ℕ
  pub dropped : Option ℕ

pub record Logger : Type 0 where
  pub buffer : List Entry
  pub batch : List Entry
  pub file : List Entry
  pub stdout : List Entry
  pub file_open : Bool
  pub dropped : ℕ
  pub counting : List ℕ
  pub written : ℕ
  pub phase : Phase
  pub stats : Option Stats

abbrev pub fuse_log_buffer_size : ℕ
fuse_log_buffer_size = 10000

abbrev pub batch_size : ℕ
batch_size = 100

abbrev pub new_logger : Logger
new_logger = record {
  buffer = [];
  batch = [];
  file = [];
  stdout = [];
  file_open = true;
  dropped = 0;
  counting = [];
  written = 0;
  phase = running;
  stats = none;
}

unfoldable pub log_non_blocking : Entry → Logger → Logger
log_non_blocking e l =
    if ltb (length l.buffer) fuse_log_buffer_size
    then record l { buffer = l.buffer ++ e ∷ [] }
    else record l { counting = l.dropped ∷ l.counting }

-- A callback that has read `v` ends its `l.dropped++`.
unfoldable pub count_drop : ℕ → Logger → Logger
count_drop v l =
    if contains v l.counting
    then record l { dropped = u64 (v + 1); counting = erase v l.counting }
    else l

unfoldable pub write_entry : Writes → Entry → Logger → Logger
write_entry writes e l =
    if writes.file_takes e
    then record l {
      file = l.file ++ e ∷ [];
      stdout = if writes.stdout_takes e then l.stdout ++ e ∷ [] else l.stdout;
      written = u64 (l.written + 1);
    }
    else l

unfoldable pub write_entries : Writes → List Entry → Logger → Logger
write_entries writes [] l = l
write_entries writes (e ∷ es) l = write_entries writes es (write_entry writes e l)

unfoldable pub flush_batch : Writes → List Entry → Logger → Logger
flush_batch writes batch l = if l.file_open then write_entries writes batch l else l

-- A flush and `batch = batch[:0]`.
abbrev pub flush : Writes → Logger → Logger
flush writes l = record (flush_batch writes l.batch l) { batch = [] }

unfoldable pub receive : Writes → Logger → Logger
receive writes l = elim l.buffer [
  | [] ↦ l
  | e ∷ rest ↦
      let l' = record l { buffer = rest; batch = l.batch ++ e ∷ [] } in
      if leb batch_size (length l'.batch) then flush writes l' else l'
]

unfoldable pub tick : Writes → Logger → Logger
tick writes l = if ltb 0 (length l.batch) then flush writes l else l

unfoldable pub drain : Writes → Logger → Logger
drain writes l = elim l.buffer [
  | [] ↦ record (tick writes l) { phase = stopped }
  | e ∷ rest ↦ record l { buffer = rest; batch = l.batch ++ e ∷ [] }
]

-- The end of CloseFUSELogger, behind its wait for the writer.
unfoldable pub close_file : Logger → Logger
close_file l =
    if l.file_open
    then record l {
      file_open = false;
      stats = some (record {
        written = l.written;
        dropped = if ltb 0 l.dropped then some l.dropped else none;
      });
    }
    else l

pub data Event : Type 0 where
  logs : Entry → Event
  receives ticks drains : Writes → Event
  counts : ℕ → Event
  sees_done closes : Event

unfoldable pub step : Event → Logger → Logger
step (logs e) l = log_non_blocking e l
step (counts v) l = count_drop v l
step (receives writes) l = elim l.phase [ running ↦ receive writes l | _ ↦ l ]
step (ticks writes) l = elim l.phase [ running ↦ tick writes l | _ ↦ l ]
step (drains writes) l = elim l.phase [ draining ↦ drain writes l | _ ↦ l ]
step sees_done l = elim l.phase [ running ↦ record l { phase = draining } | _ ↦ l ]
step closes l = elim l.phase [ stopped ↦ close_file l | _ ↦ l ]

unfoldable pub run : List Event → Logger → Logger
run [] l = l
run (e ∷ es) l = run es (step e l)
