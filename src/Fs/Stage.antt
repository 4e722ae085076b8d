-- ===== src/Fs/Stage.antt =====
-- internal/fs/fs_fuse.go: StageFile.
--
-- `Env` holds what the call meets: the time, whether EnsureSpaceAvailable succeeds and the stores that
-- it marks as evicted, the answer of BuildTempURL, and the store that NewBackingStore makes, with the
-- stores that are marked meanwhile. No other goroutine stages, opens or evicts during the call.
use fuse_stream_mvp.Base.{
  ℕ, Bool, true, false, not, ◌&&◌, Option, none, some, List, [], ◌∷◌, if◌then◌else◌,
}
use fuse_stream_mvp.Base.Maps.{Map, Text, get, put, nat_eq, text_eq}
use fuse_stream_mvp.Fs.{
  Fs, Staged, StagedFile, Store, ready, is_evicted, change_store, close_store,
  evict_all_staged_files,
}
use fuse_stream_mvp.Fs.Paths.{staged_id}

pub record Request : Type 0 where
  pub file_id : Text
  pub file_name : Text
  pub recipient_tag : Text
  pub size : ℕ
  pub content_type : Text

pub record Env : Type 0 where
  pub now : ℕ
  pub space_ok : Bool
  pub space_marks : List ℕ
  pub temp_url : Option Text
  pub store : Option ℕ
  pub store_marks : List ℕ

pub data Error : Type 0 where
  insufficient_disk_space no_temp_url no_backing_store : Error

pub data Staging : Type 0 where
  staged : StagedFile → Staging
  fails : Error → Staging

-- The callbacks of evicted temp files.
unfoldable pub mark_evicted : List ℕ → Map ℕ Store → Map ℕ Store
mark_evicted [] m = m
mark_evicted (st ∷ sts) m = mark_evicted sts (change_store st (λ s. record s { evicted = true }) m)

-- A file that is staged already: its tile comes back, and a store whose temp file is gone is closed.
unfoldable pub refresh : Text → ℕ → Staged → Fs → Fs × Option Staged
refresh id now s fs =
    let touched = record s { tile_ref = 1; file = record s.file { mod_time = now } } in
    let lost = record touched { store = none } in
    elim s.store [
      | none ↦ (record fs { staged_files = put id touched fs.staged_files }, none)
      | some st ↦
          if is_evicted st fs.stores
          then (
            record fs {
              stores = close_store st fs.stores;
              staged_files = put id lost fs.staged_files;
            },
            none,
          )
          else (record fs { staged_files = put id touched fs.staged_files }, some touched)
    ]

abbrev pub new_file : Text → Request → ℕ → StagedFile
new_file id r now = record {
  id = id;
  file_id = r.file_id;
  file_name = r.file_name;
  recipient_tag = r.recipient_tag;
  size = r.size;
  content_type = r.content_type;
  mod_time = now;
  status = ready;
}

-- The registration of the new store `st`, under the lock.
unfoldable pub install : Text → Request → ℕ → ℕ → Fs → Fs × Staging
install id r now st fs =
    let made = put st (record { ref_count = 0; closed = false; evicted = false }) fs.stores in
    elim (get id fs.staged_files) [
      | none ↦
          let file = new_file id r now in
          (
            record fs {
              stores = made;
              staged_files =
                  put id (record { file = file; store = some st; tile_ref = 1; open_ref = 0 })
                    fs.staged_files;
            },
            staged file,
          )
      | some s ↦ elim s.store [
        | some _ ↦ (record fs { stores = close_store st made }, staged s.file)
        | none ↦
            let file = record s.file { status = ready } in
            (
              record fs {
                stores = made;
                staged_files = put id (record s { store = some st; file = file }) fs.staged_files;
              },
              staged file,
            )
      ]
    ]

-- From the check of the disk space on.
unfoldable pub create : Text → Request → Env → Fs → Fs × Staging
create id r env fs =
    let marks = if fs.temp_file_mode then env.space_marks else [] in
    let checked = record fs { stores = mark_evicted marks fs.stores } in
    if fs.temp_file_mode && not env.space_ok
    then (checked, fails insufficient_disk_space)
    else elim env.temp_url [
      | none ↦ (checked, fails no_temp_url)
      | some url ↦
          let ready_for = record checked { stores = mark_evicted env.store_marks checked.stores } in
          elim env.store [
            | none ↦ (ready_for, fails no_backing_store)
            | some st ↦ install id r env.now st ready_for
          ]
    ]

unfoldable pub stage_file : Request → Env → Fs → Fs × Staging
stage_file r env fs =
    let id = staged_id r.file_id r.recipient_tag in
    let cleared = evict_all_staged_files fs in
    elim (get id cleared.staged_files) [
      | none ↦ create id r env cleared
      | some s ↦
          let (fs', valid) = refresh id env.now s cleared in
          elim valid [ some s' ↦ (fs', staged s'.file) | none ↦ create id r env fs' ]
    ]
