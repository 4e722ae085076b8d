-- ===== src/Fetcher/TempFiles.antt =====
-- internal/fetcher/tempfile_manager.go: the temp files of this process, kept few and small enough.
--
-- `Env` is the system during one call of EnsureSpaceAvailable: what statfs answers at its k-th
-- question, the float product that is 70 percent of a total, and what other goroutines do to the map
-- of files while no lock is held. The trace lists the callbacks and removals in their order.
pub mod Eviction
pub mod Space
pub mod Stale
use fuse_stream_mvp.Base.{
  ℕ, zero, suc, ◌+◌, ◌*◌, Bool, true, false, ◌&&◌, not, Option, none, some, List, [], ◌∷◌, ◌++◌,
  ltb, leb, if◌then◌else◌, length,
}
use fuse_stream_mvp.Base.Maps.{Map, Text, get, put, delete, text_eq}
use fuse_stream_mvp.Base.Words.{u64}

abbrev pub max_temp_files : ℕ
max_temp_files = 10

-- `on_evict` names the store whose callback marks it as evicted.
pub record Info : Type 0 where
  pub size : ℕ
  pub last_access : ℕ
  pub on_evict : Option ℕ

abbrev pub Files : Type 0
Files = Map Text Info

-- `syscall.Statfs_t`
pub record Stat : Type 0 where
  pub blocks : ℕ
  pub bavail : ℕ
  pub bsize : ℕ

pub record Env : Type 0 where
  pub statfs : ℕ → Option Stat
  pub percent_70 : ℕ → ℕ
  pub meanwhile : ℕ → Files → Files

pub record Usage : Type 0 where
  pub total : ℕ
  pub available : ℕ

-- `none` where the directory cannot be made or statfs fails.
unfoldable pub get_disk_usage : Env → ℕ → Option Usage
get_disk_usage env k = elim (env.statfs k) [
  | none ↦ none
  | some s ↦
      some (record { total = u64 (s.blocks * s.bsize); available = u64 (s.bavail * s.bsize) })
]

unfoldable pub register : Text → ℕ → ℕ → Option ℕ → Files → Files
register path size now on_evict files =
    put path (record { size = size; last_access = now; on_evict = on_evict }) files

unfoldable pub unregister : Text → Files → Files
unregister path files = delete path files

unfoldable pub update_access : Text → ℕ → Files → Files
update_access path now files = elim (get path files) [
  | none ↦ files
  | some info ↦ put path (record info { last_access = now }) files
]

unfoldable pub usage_from : ℕ → Files → ℕ
usage_from acc [] = acc
usage_from acc ((path, info) ∷ rest) = usage_from (u64 (acc + u64 info.size)) rest

-- `none` where GetDiskUsage fails.
unfoldable pub check_space_available : Env → ℕ → ℕ → Files → Option Bool
check_space_available env k file_size files = elim (get_disk_usage env k) [
  | none ↦ none
  | some d ↦
      let new_usage = u64 (usage_from 0 files + u64 file_size) in
      some (leb (u64 file_size) d.available && leb new_usage (env.percent_70 d.total))
]

pub record Entry : Type 0 where
  pub path : Text
  pub size : ℕ
  pub last_access : ℕ

unfoldable pub entries_of : Files → List Entry
entries_of [] = []
entries_of ((path, info) ∷ rest) =
    record { path = path; size = info.size; last_access = info.last_access } ∷ entries_of rest

-- `sort.Slice` by lastAccess.
unfoldable pub insert_entry : Entry → List Entry → List Entry
insert_entry e [] = e ∷ []
insert_entry e (x ∷ xs) =
    if ltb x.last_access e.last_access then x ∷ insert_entry e xs else e ∷ x ∷ xs

unfoldable pub sort_entries : List Entry → List Entry
sort_entries [] = []
sort_entries (e ∷ es) = insert_entry e (sort_entries es)

pub data Event : Type 0 where
  notifies : ℕ → Event
  removes : Text → Event

pub data Error : Type 0 where
  disk_usage_failed insufficient_disk_space too_many_temp_files : Error

pub data Ensured : Type 0 where
  ok : Ensured
  fails : Error → Ensured
  panics : Ensured

-- What the loop leaves: how it ended, the files, the trace, and how often statfs was asked.
pub record Outcome : Type 0 where
  pub result : Ensured
  pub files : Files
  pub trace : List Event
  pub asked : ℕ

abbrev pub notify : Option ℕ → List Event
notify none = []
notify (some store) = notifies store ∷ []

-- The k-th check and what follows has three moments at which no lock is held: before the check, between
-- the check and the count, and after the count. What `meanwhile` does at each may differ.
abbrev pub before_check : Env → ℕ → Files → Files
before_check env k = env.meanwhile (3 * k)

abbrev pub before_count : Env → ℕ → Files → Files
before_count env k = env.meanwhile (3 * k + 1)

abbrev pub after_count : Env → ℕ → Files → Files
after_count env k = env.meanwhile (3 * k + 2)

-- The loop over the entries: a `nil` info is dereferenced where the entry has gone meanwhile.
unfoldable pub evict_loop : Env → ℕ → ℕ → List Entry → Files → List Event → Outcome
evict_loop env k file_size [] files trace = record {
  result = ok;
  files = files;
  trace = trace;
  asked = k;
}
evict_loop env k file_size (e ∷ es) files trace =
    let checked = before_check env k files in
    elim (check_space_available env k file_size checked) [
      | none ↦ record {
        result = fails disk_usage_failed;
        files = checked;
        trace = trace;
        asked = suc k;
      }
      | some space ↦
          let counted = before_count env k checked in
          elim (space && ltb (length counted) max_temp_files) [
            | true ↦ record { result = ok; files = counted; trace = trace; asked = suc k }
            | false ↦
                let now = after_count env k counted in
                elim (get e.path now) [
                  | none ↦ record { result = panics; files = now; trace = trace; asked = suc k }
                  | some info ↦
                      evict_loop env (suc k) file_size es (delete e.path now)
                        (trace ++ (notify info.on_evict ++ removes e.path ∷ []))
                ]
          ]
    ]

-- The check after the loop, and the count of the files after it.
unfoldable pub judge : Bool → ℕ → Ensured
judge space count =
    if not space
    then fails insufficient_disk_space
    else if leb max_temp_files count
    then fails too_many_temp_files
    else ok

unfoldable pub final_check : Env → ℕ → ℕ → Files → Files × Ensured
final_check env k file_size files =
    let checked = before_check env k files in
    elim (check_space_available env k file_size checked) [
      | none ↦ (checked, fails disk_usage_failed)
      | some space ↦
          let counted = before_count env k checked in (counted, judge space (length counted))
    ]

unfoldable pub finish : Env → ℕ → Outcome → Outcome
finish env file_size o = elim o.result [
  | ok ↦
      let (files, result) = final_check env o.asked file_size o.files in
      record o { result = result; files = files }
  | fails e ↦ o
  | panics ↦ o
]

-- The first count comes before the first check.
unfoldable pub ensure_space_available : Env → ℕ → Files → Outcome
ensure_space_available env file_size files =
    let checked = before_check env 0 files in
    elim (check_space_available env 0 file_size checked) [
      | none ↦ record { result = fails disk_usage_failed; files = checked; trace = []; asked = 1 }
      | some space ↦
          if space && ltb (length files) max_temp_files
          then record { result = ok; files = checked; trace = []; asked = 1 }
          else let listed = after_count env 0 checked in
            finish env file_size
              (evict_loop env 1 file_size (sort_entries (entries_of listed)) listed [])
    ]

-- CleanupAllFiles: `removed` says of which paths os.Remove succeeds or finds no file. The result is
-- the number of paths that stay behind; the map is cleared all the same.
unfoldable pub count_failures : (Text → Bool) → Files → ℕ
count_failures removed [] = 0
count_failures removed ((path, info) ∷ rest) =
    let n = count_failures removed rest in if removed path then n else suc n

unfoldable pub cleanup_all_files : (Text → Bool) → Files → Files × ℕ
cleanup_all_files removed files = ([], count_failures removed files)
