-- ===== src/Logging/FileLogger.antt =====
-- internal/logging/logger.go: log messages that a goroutine writes to a file, and the file's rotation.
--
-- The disk gives for each number k the bytes of fusestream.log.k, and for 0 those of fusestream.log.
-- `Host` is the system during one call: which operations succeed, how much of a write comes through,
-- and the marker, as far as it is written. A rename replaces what stands under the new name.
pub mod Rotation
pub mod Bounds
pub mod Opening
use fuse_stream_mvp.Base.{
  ℕ, zero, suc, ◌+◌, ◌-◌, ◌*◌, Bool, true, false, ◌&&◌, not, Option, none, some, List, [], ◌∷◌,
  ◌++◌, ltb, leb, ◌==◌, if◌then◌else◌, length, take,
}

abbrev pub Bytes : Type 0
Bytes = List ℕ

abbrev pub Disk : Type 0
Disk = ℕ → Option Bytes

abbrev pub max_log_file_size : ℕ
max_log_file_size = 10485760

abbrev pub max_log_files : ℕ
max_log_files = 5

abbrev pub log_channel_buffer : ℕ
log_channel_buffer = 1000

pub record Host : Type 0 where
  pub stats : Bool
  pub closes : Bool
  pub removes : Bool
  pub renames : ℕ → Bool
  pub opens : Bool
  pub write_limit : Option ℕ
  pub marker : Bytes

pub record FileLogger : Type 0 where
  pub disk : Disk
  pub file_open : Bool
  pub size : ℕ
  pub log_chan : List Bytes
  pub stdout : List Bytes

abbrev pub set : ℕ → Option Bytes → Disk → Disk
set k v d j = if j == k then v else d j

-- `os.Rename`, whose error counts only where the file is there.
unfoldable pub rename : Bool → ℕ → ℕ → Disk → Disk
rename works i j d =
    if works then elim (d i) [ none ↦ d | some b ↦ set j (some b) (set i none d) ] else d

-- The loop over the rotated files, from `n` down to 1.
unfoldable pub rotate_from : (ℕ → Bool) → ℕ → Disk → Disk
rotate_from renames zero d = d
rotate_from renames (suc n) d =
    rotate_from renames n (rename (renames (suc n)) (suc n) (suc (suc n)) d)

abbrev pub content : Option Bytes → Bytes
content none = []
content (some b) = b

-- A write to the open log file, which O_CREATE makes where it is missing.
abbrev pub append_log : Bytes → Disk → Disk
append_log b d = set 0 (some (content (d 0) ++ b)) d

abbrev pub exists : Option Bytes → Bool
exists none = false
exists (some b) = true

-- The files without the oldest, each under its next name.
unfoldable pub shift_files : Host → Disk → Disk
shift_files h d =
    rotate_from h.renames (max_log_files - 2)
      (if h.removes then set (max_log_files - 1) none d else d)

-- The new log file, and false where an error is returned.
unfoldable pub start_log : Host → FileLogger → FileLogger × Bool
start_log h l =
    if exists (l.disk 0) && not (h.renames 0)
    then (l, false)
    else let renamed = rename true 0 1 l.disk in
      if h.opens
      then (record l { disk = append_log h.marker renamed; file_open = true }, true)
      else (record l { disk = renamed }, false)

unfoldable pub rotate_logs_locked : Host → FileLogger → FileLogger × Bool
rotate_logs_locked h l =
    if l.file_open && not h.closes
    then (l, false)
    else start_log h (record l { disk = shift_files h l.disk; file_open = false })

-- What a rotation leaves of the size.
abbrev pub rotated : FileLogger × Bool → FileLogger
rotated (l, true) = record l { size = 0 }
rotated (l, false) = l

unfoldable pub open_log : Host → FileLogger → FileLogger × Bool
open_log h l =
    if h.opens
    then (record l { disk = append_log [] l.disk; file_open = true }, true)
    else (l, false)

-- Init calls it on a logger with no open file.
unfoldable pub open_log_file : Host → FileLogger → FileLogger × Bool
open_log_file h l = elim (l.disk 0) [
  | none ↦ if h.stats then open_log h l else (l, false)
  | some b ↦
      if not h.stats
      then (l, false)
      else let sized = record l { size = length b } in
        if ltb (length b) max_log_file_size
        then open_log h sized
        else let r = rotate_logs_locked h sized in
          if r.1 then open_log h (record r.0 { size = 0 }) else (r.0, false)
]

unfoldable pub write_to_file : Host → Bytes → FileLogger → FileLogger
write_to_file h bytes l = if not l.file_open then l else elim h.write_limit [
  | some k ↦ record l { disk = append_log (take k bytes) l.disk }
  | none ↦
      let l' = record l { disk = append_log bytes l.disk; size = l.size + length bytes } in
      if leb max_log_file_size l'.size then rotated (rotate_logs_locked h l') else l'
]

-- asyncWriter.Write.
unfoldable pub write : Bytes → FileLogger → FileLogger
write bytes l =
    let shown = record l { stdout = l.stdout ++ bytes ∷ [] } in
    if ltb (length l.log_chan) log_channel_buffer
    then record shown { log_chan = l.log_chan ++ bytes ∷ [] }
    else shown

-- One message for the file, in the loop of writerLoop or in its drain.
unfoldable pub receive : Host → FileLogger → FileLogger
receive h l = elim l.log_chan [
  | [] ↦ l
  | bytes ∷ rest ↦ write_to_file h bytes (record l { log_chan = rest })
]

-- A call of asyncWriter.Write, or a turn of writerLoop.
pub data Event : Type 0 where
  writes : Bytes → Event
  receives : Host → Event

unfoldable pub run_log : List Event → FileLogger → FileLogger
run_log [] l = l
run_log (writes bytes ∷ es) l = run_log es (write bytes l)
run_log (receives h ∷ es) l = run_log es (receive h l)
