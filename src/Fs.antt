-- ===== src/Fs.antt =====
-- internal/fs/fs_fuse.go: staged files, file handles and the read-only FUSE callbacks.
--
-- Backing stores are objects of a heap, `stores`. The maps fhToStore, fhToPath and fhToStagedID, which
-- the code writes and deletes together under fhMu, are one map of handles. Goroutines that a callback
-- starts wait in `tasks`. Callbacks run one at a time.
pub mod Paths
pub mod Stage
pub mod Handles
pub mod Invariant
pub mod Calls
pub mod Runs
pub mod Tiles
pub mod Staging
pub mod Safety
pub mod Opening
pub mod Tree
pub mod Agreement
pub mod Sleep
pub mod Reading
pub mod Watchdog
pub mod Stub
pub mod Mount
pub mod Owners
use fuse_stream_mvp.Base.{
  ℕ, zero, suc, ◌+◌, Bool, true, false, ◌&&◌, ◌||◌, not, Option, none, some, List, [], ◌∷◌, ◌++◌,
  ltb, ◌==◌, if◌then◌else◌, length,
}
use fuse_stream_mvp.Base.Maps.{Map, Text, text_beq, get, put, delete, nat_eq, text_eq}
use fuse_stream_mvp.Base.Words.{u64, inc32, dec32, is_pos32}
use Paths.{Place, root, staged_dir, elsewhere, subdirectory, file_in, trim_slash, place_of}

pub data Status : Type 0 where
  ready open_ : Status

pub record StagedFile : Type 0 where
  pub id : Text
  pub file_id : Text
  pub file_name : Text
  pub recipient_tag : Text
  pub size : ℕ
  pub content_type : Text
  pub mod_time : ℕ
  pub status : Status

-- `stagedFileFuse`; the two counts are bit patterns of int32.
pub record Staged : Type 0 where
  pub file : StagedFile
  pub store : Option ℕ
  pub tile_ref : ℕ
  pub open_ref : ℕ

-- What this package sees of a backing store; `evicted` is false of a RangeLRUStore.
pub record Store : Type 0 where
  pub ref_count : ℕ
  pub closed : Bool
  pub evicted : Bool

pub record Handle : Type 0 where
  pub store : ℕ
  pub path : Text
  pub staged : Text

pub data Task : Type 0 where
  enable_sleep_prevention disable_sleep_prevention : Task

pub record Fs : Type 0 where
  pub staged_files : Map Text Staged
  pub stores : Map ℕ Store
  pub next_fh : ℕ
  pub handles : Map ℕ Handle
  pub tasks : List Task
  pub sleep_prevented : Bool
  pub temp_file_mode : Bool
  pub debug_skip_eviction : Bool

pub data Errno : Type 0 where
  enoent eio ebadf eacces enotdir erofs enosys : Errno

abbrev pub change_store : ℕ → (Store → Store) → Map ℕ Store → Map ℕ Store
change_store st f m = elim (get st m) [ none ↦ m | some s ↦ put st (f s) m ]

unfoldable pub close_store : ℕ → Map ℕ Store → Map ℕ Store
close_store st m = change_store st (λ s. record s { closed = true }) m

unfoldable pub inc_ref : ℕ → Map ℕ Store → Map ℕ Store
inc_ref st m = change_store st (λ s. record s { ref_count = inc32 s.ref_count }) m

unfoldable pub dec_ref : ℕ → Map ℕ Store → Map ℕ Store
dec_ref st m = change_store st (λ s. record s { ref_count = dec32 s.ref_count }) m

abbrev pub is_evicted : ℕ → Map ℕ Store → Bool
is_evicted st m = elim (get st m) [ none ↦ false | some s ↦ s.evicted ]

unfoldable pub has_active_uploads : Map Text Staged → Bool
has_active_uploads [] = false
has_active_uploads ((id, s) ∷ rest) = is_pos32 s.open_ref || has_active_uploads rest

unfoldable pub files_of : Map Text Staged → List StagedFile
files_of [] = []
files_of ((id, s) ∷ rest) = s.file ∷ files_of rest

unfoldable pub get_staged_files : Fs → List StagedFile
get_staged_files fs = files_of fs.staged_files

unfoldable pub do_evict_locked : Text → Fs → Fs
do_evict_locked id fs = elim (get id fs.staged_files) [
  | none ↦ fs
  | some s ↦ record fs {
    stores = elim s.store [ none ↦ fs.stores | some st ↦ close_store st fs.stores ];
    staged_files = delete id fs.staged_files;
  }
]

unfoldable pub try_evict_locked : Text → Fs → Fs
try_evict_locked id fs = elim (get id fs.staged_files) [
  | none ↦ fs
  | some s ↦ if s.tile_ref == 0 && s.open_ref == 0 then do_evict_locked id fs else fs
]

unfoldable pub clear_tile_ref : Text → Fs → Fs
clear_tile_ref id fs = elim (get id fs.staged_files) [
  | none ↦ fs
  | some s ↦ record fs { staged_files = put id (record s { tile_ref = 0 }) fs.staged_files }
]

unfoldable pub evict_staged_file : Text → Fs → Fs
evict_staged_file id fs = elim (get id fs.staged_files) [
  | none ↦ fs
  | some s ↦ try_evict_locked id (clear_tile_ref id fs)
]

-- `for id := range fs.stagedFiles`, over the ids that the map had at the start.
unfoldable pub evict_each : Map Text Staged → Fs → Fs
evict_each [] fs = fs
evict_each ((id, s) ∷ rest) fs = evict_each rest (try_evict_locked id (clear_tile_ref id fs))

unfoldable pub evict_all_staged_files : Fs → Fs
evict_all_staged_files fs = evict_each fs.staged_files fs

-- The file behind a path, if it is staged under that name.
unfoldable pub find_file : Text → Fs → Option (Text × Staged)
find_file path fs = elim (place_of path) [
  | file_in id name ↦ elim (get id fs.staged_files) [
    | none ↦ none
    | some s ↦ if text_beq s.file.file_name name then some (id, s) else none
  ]
  | _ ↦ none
]

pub data Opened : Type 0 where
  opened : ℕ → Opened
  refused : Errno → Opened

-- The part of Open behind its checks.
unfoldable pub register_handle : Text → Text → Staged → ℕ → Fs → Fs × Opened
register_handle path id s st fs =
    let fh = fs.next_fh in
    let handles =
      put fh (record { store = st; path = trim_slash path; staged = s.file.id }) fs.handles in
    (
      record fs {
        staged_files =
            put id
              (record s { open_ref = inc32 s.open_ref; file = record s.file { status = open_ } })
              fs.staged_files;
        stores = inc_ref st fs.stores;
        next_fh = u64 (fh + 1);
        handles = handles;
        tasks = if length handles == 1 then fs.tasks ++ enable_sleep_prevention ∷ [] else fs.tasks;
      },
      opened fh,
    )

unfoldable pub open_file : Text → Fs → Fs × Opened
open_file path fs = elim (find_file path fs) [
  | none ↦ (fs, refused enoent)
  | some (id, s) ↦ elim s.store [
    | none ↦ (fs, refused eio)
    | some st ↦
        if is_evicted st fs.stores then (fs, refused eio) else register_handle path id s st fs
  ]
]

-- The part of Release that counts the handle out of its staged file.
unfoldable pub drop_open_ref : Text → Fs → Fs
drop_open_ref id fs = elim (get id fs.staged_files) [
  | none ↦ fs
  | some s ↦
      let n = dec32 s.open_ref in
      let fs' = record fs { staged_files = put id (record s { open_ref = n }) fs.staged_files } in
      if s.tile_ref == 0 && n == 0
      then (if fs.debug_skip_eviction then fs' else try_evict_locked id fs')
      else fs'
]

abbrev pub spawn : Task → Fs → Fs
spawn t fs = record fs { tasks = fs.tasks ++ t ∷ [] }

unfoldable pub release : ℕ → Fs → Fs × Option Errno
release fh fs = elim (get fh fs.handles) [
  | none ↦ (fs, some ebadf)
  | some h ↦
      let freed = record fs {
        handles = delete fh fs.handles;
        stores = dec_ref h.store fs.stores;
      } in
      (spawn disable_sleep_prevention (drop_open_ref h.staged freed), none)
]
