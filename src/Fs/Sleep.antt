-- ===== src/Fs/Sleep.antt =====
-- internal/fs/fs_fuse.go: the prevention of system sleep while a handle is open.
--
-- The goroutines that Open and Release start run at any later time and in any order: each step runs
-- the pending task at some position. `works` says whether sleep.PreventSleep succeeds.
pub mod Same
pub mod Awake
use fuse_stream_mvp.Base.{
  ℕ, zero, suc, ◌+◌, ◌≡◌, refl, ◌≢◌, ◌⊎◌, inl, inr, ◌∙◌, sym, ap, ap₂, subst, Bool, true, false,
  ◌||◌, not, ◌&&◌, Option, none, some, List, [], ◌∷◌, ◌++◌, arith, ◌==◌, ltb, if◌then◌else◌, length,
  Bool-cases, Option-cases,
}
use fuse_stream_mvp.Base.Maps.{Map, Text, get, put, delete, nat_eq, text_eq}
use fuse_stream_mvp.Fs.{
  Fs, Staged, Store, Handle, Task, enable_sleep_prevention, disable_sleep_prevention,
  do_evict_locked, try_evict_locked, clear_tile_ref, evict_each, evict_all_staged_files,
  evict_staged_file, open_file, register_handle, drop_open_ref, release, is_evicted, spawn,
  find_file, dec_ref,
}
use fuse_stream_mvp.Base.Words.{dec32}
use fuse_stream_mvp.Fs.Stage.{Request, Env, refresh, install, create, stage_file, mark_evicted}
use fuse_stream_mvp.Fs.Paths.{staged_id, trim_slash}
use fuse_stream_mvp.Fs.Safety.{
  Call, calls_stage_file, calls_open, calls_release, calls_evict_staged_file,
  calls_evict_all_staged_files, step, new_fs,
}

unfoldable pub enable : Bool → Fs → Fs
enable works fs =
    if fs.sleep_prevented then fs else if works then record fs { sleep_prevented = true } else fs

unfoldable pub disable : Fs → Fs
disable fs =
    if not fs.sleep_prevented
    then fs
    else if ltb 0 (length fs.handles)
    then fs
    else record fs { sleep_prevented = false }

abbrev pub run_task : Bool → Task → Fs → Fs
run_task works enable_sleep_prevention fs = enable works fs
run_task works disable_sleep_prevention fs = disable fs

-- The task at a position, and the others.
abbrev pub pick : ℕ → List Task → Option (Task × List Task)
pick k [] = none
pick zero (t ∷ ts) = some (t, ts)
pick (suc k) (t ∷ ts) = elim (pick k ts) [ none ↦ none | some (u, us) ↦ some (u, t ∷ us) ]

unfoldable pub run_pending : Bool → ℕ → Fs → Fs
run_pending works k fs = elim (pick k fs.tasks) [
  | none ↦ fs
  | some (t, ts) ↦ run_task works t (record fs { tasks = ts })
]

abbrev pub is_enable : Task → Bool
is_enable enable_sleep_prevention = true
is_enable disable_sleep_prevention = false

abbrev pub enable_pending : List Task → Bool
enable_pending [] = false
enable_pending (t ∷ ts) = is_enable t || enable_pending ts

-- While a handle is open, sleep is prevented or about to be.
abbrev pub IsAwake : Fs → Type 0
IsAwake fs = fs.handles ≢ [] → (fs.sleep_prevented || enable_pending fs.tasks) ≡ true

pub data Event : Type 0 where
  calls : Call → Event
  runs_task : ℕ → Event

unfoldable pub run_events : List Event → Fs → Fs
run_events [] fs = fs
run_events (calls c ∷ es) fs = run_events es (step c fs)
run_events (runs_task k ∷ es) fs = run_events es (run_pending true k fs)
