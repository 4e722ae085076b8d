-- ===== src/Tests/Fs.antt =====
-- internal/fs/fs_fuse.go: two files are staged, one is opened twice.
use fuse_stream_mvp.Base.{
  ℕ, ◌≡◌, refl, ◌≢◌, ◌⊎◌, ◌↔◌, true, false, some, List, [], ◌∷◌, ◌++◌, arith, contains,
}
use fuse_stream_mvp.Base.Maps.{Text, get, put, delete, nat_eq, text_eq}
use fuse_stream_mvp.Base.Words.{is_pos32}
use fuse_stream_mvp.Fs.{
  Staged, StagedFile, Handle, open_file, has_active_uploads, evict_all_staged_files, find_file,
  register_handle, evict_each, try_evict_locked, clear_tile_ref, do_evict_locked, inc_ref, dec_ref,
  close_store, release, drop_open_ref,
}
use fuse_stream_mvp.Fs.Paths.{
  slash, place_of, path_of, staged_id, trim_slash, cut_prefix, split, below_staged,
}
use fuse_stream_mvp.Fs.Stage.{
  Request, Env, staged, stage_file, create, install, refresh, mark_evicted, new_file,
}
use fuse_stream_mvp.Fs.Handles.{count}
use fuse_stream_mvp.Fs.Safety.{
  Call, calls_stage_file, calls_open, calls_release, run, new_fs, after, open_handle_is_staged,
  has_active_uploads_iff,
}
use fuse_stream_mvp.Fs.Staging.{IsAnswered, stage_file-IsAnswered}
use fuse_stream_mvp.Fs.Tree.{attr, a_directory, a_file, getattr, lists, readdir, dots}
use fuse_stream_mvp.Fs.Agreement.{
  IsDirectory, IsFile, IsMissing, callbacks_agree, directory_of, staged_file_is_seen,
}
use fuse_stream_mvp.Fs.Sleep.{Event, calls, runs_task, run_events, IsAwake}
use fuse_stream_mvp.Fs.Sleep.Awake.{run_events-IsAwake}
use fuse_stream_mvp.Base.{◌⊎◌}
use fuse_stream_mvp.Fs.{Fs, enable_sleep_prevention, disable_sleep_prevention}
use fuse_stream_mvp.Fs.Paths.{staged_dir_name, slash}

abbrev request : ℕ → Request
request c = record {
  file_id = c ∷ [];
  file_name = c ∷ b'x' ∷ [];
  recipient_tag = b'r' ∷ [];
  size = 10;
  content_type = [];
}

abbrev env : ℕ → Env
env st = record {
  now = 7;
  space_ok = true;
  space_marks = [];
  temp_url = some [];
  store = some st;
  store_marks = [];
}

-- "a_r" and "ax"
abbrev first_id : Text
first_id = b'a' ∷ b'_' ∷ b'r' ∷ []

abbrev first_name : Text
first_name = b'a' ∷ b'x' ∷ []

abbrev first_path : Text
first_path = b'/' ∷ b'S' ∷ b't' ∷ b'a' ∷ b'g' ∷ b'e' ∷ b'd' ∷ b'/' ∷ first_id ++ b'/' ∷ first_name

abbrev some_calls : List Call
some_calls =
    calls_stage_file (request b'a') (env 1)
    ∷ calls_open first_path
    ∷ calls_open first_path
    ∷ calls_stage_file (request b'b') (env 2)
    ∷ calls_release 1
    ∷ []

abbrev first_handle : Handle
first_handle = record {
  store = 1;
  path = b'S' ∷ b't' ∷ b'a' ∷ b'g' ∷ b'e' ∷ b'd' ∷ b'/' ∷ first_id ++ b'/' ∷ first_name;
  staged = first_id;
}

-- The second handle is still open.
second_handle : get 2 (after true false some_calls).handles ≡ some first_handle
unfolding run new_fs stage_file create install evict_all_staged_files evict_each try_evict_locked
    clear_tile_ref do_evict_locked open_file find_file register_handle staged_id place_of trim_slash
    cut_prefix below_staged split get put delete release drop_open_ref mark_evicted inc_ref dec_ref
    close_store refresh
second_handle = refl

open_handle_is_staged_example :
    (s : Staged) × (get first_id (after true false some_calls).staged_files ≡ some s)
    × (s.open_ref ≡ count first_id (after true false some_calls).handles)
    × (is_pos32 s.open_ref ≡ true)
open_handle_is_staged_example =
    open_handle_is_staged true false some_calls 2 first_handle (omega arith) second_handle

has_active_uploads_iff_example :
    (has_active_uploads (after true false some_calls).staged_files ≡ true)
    ↔ ((after true false some_calls).handles ≢ [])
has_active_uploads_iff_example = has_active_uploads_iff true false some_calls (omega arith)

stage_file-IsAnswered_example :
    IsAnswered
      (staged_id (b'a' ∷ []) (b'r' ∷ []))
      (stage_file (request b'a') (env 3) (after true false some_calls)).0
      (stage_file (request b'a') (env 3) (after true false some_calls)).1
stage_file-IsAnswered_example =
    stage_file-IsAnswered (request b'a') (env 3) (after true false some_calls)

other_id : first_id ≢ staged_id (b'c' ∷ []) (b'r' ∷ [])
unfolding staged_id
other_id = ground arith

first_plain : (contains slash first_id ≡ false) × (contains slash first_name ≡ false)
unfolding contains
first_plain = (refl, refl)

abbrev first_file : StagedFile
first_file = new_file first_id (request b'a') 7

new_fs_staged : (stage_file (request b'a') (env 1) (new_fs true false)).1 ≡ staged first_file
unfolding new_fs stage_file create install evict_all_staged_files evict_each staged_id get
    mark_evicted
new_fs_staged = refl

abbrev started : Fs
started = after true false some_calls

callbacks_agree_example :
    IsDirectory (λ n. true) first_path started
    ⊎ (IsFile (λ n. true) first_path started ⊎ IsMissing (λ n. true) first_path started)
callbacks_agree_example = callbacks_agree (λ n. true) first_path started

abbrev first_staged : Staged
first_staged = record { file = first_file; store = some 1; tile_ref = 1; open_ref = 0 }

abbrev one_file : Fs
one_file = (stage_file (request b'a') (env 1) (new_fs true false)).0

one_file-get : get first_id one_file.staged_files ≡ some first_staged
unfolding new_fs stage_file create install evict_all_staged_files evict_each staged_id get put
    mark_evicted
one_file-get = refl

staged_file_is_seen_example :
    (before : List Text) × (others : List Text) × (readdir
        (λ n. true)
        (slash ∷ staged_dir_name)
        one_file
      ≡ lists (dots (before ++ first_id ∷ others)))
    × (getattr (directory_of first_id) one_file ≡ attr a_directory)
    × (readdir (λ n. true) (directory_of first_id) one_file ≡ lists (dots (first_name ∷ [])))
    × (getattr (path_of first_id first_name) one_file ≡ attr (a_file first_staged))
staged_file_is_seen_example =
    staged_file_is_seen (λ n. true) first_id first_staged one_file (λ n. refl) one_file-get
      first_plain.0 first_plain.1

abbrev events : List Event
events =
    calls (calls_stage_file (request b'a') (env 1))
    ∷ calls (calls_open first_path)
    ∷ runs_task 0
    ∷ []

run_events-IsAwake_example : IsAwake (run_events events (new_fs true false))
run_events-IsAwake_example = run_events-IsAwake true false events

abbrev both_pending : Fs
both_pending = record (new_fs true false) {
  tasks = enable_sleep_prevention ∷ disable_sleep_prevention ∷ [];
}

both_pending_off : (both_pending.handles ≡ []) × (both_pending.sleep_prevented ≡ false)
unfolding new_fs
both_pending_off = (refl, refl)
