-- ===== src/Tests/Mount.antt =====
-- internal/fs/fs_fuse.go: a file system that is mounted, with one staged file, and stopped.
use fuse_stream_mvp.Base.{
  ℕ, ◌+◌, ◌*◌, ◌≡◌, refl, Bool, true, false, some, List, [], ◌∷◌, arith, none,
}
use fuse_stream_mvp.Base.Maps.{Text, get, put, nat_eq, text_eq}
use fuse_stream_mvp.Fs.{evict_all_staged_files, evict_each}
use fuse_stream_mvp.Fs.Mount.{Env, Config, Mount, Ending, present, new_mount, stop}
use fuse_stream_mvp.Fetcher.TempFiles.Stale.{is_stale}
use fuse_stream_mvp.Fs.Mount.Stopping.{IsStop, stop-IsStop}
use fuse_stream_mvp.Fs.Mount.Leftovers.{stop-leaves_nothing}
use fuse_stream_mvp.Fs.Owners.{Owned, is_open}
use fuse_stream_mvp.Fs.Owners.Runs.{AllNew, stores_have_owners}
use fuse_stream_mvp.Fs.Paths.{staged_id}
use fuse_stream_mvp.Fs.Safety.{Call, calls_stage_file, after, new_fs, run}
use fuse_stream_mvp.Fs.Stage.{Request, stage_file, create, install, mark_evicted}
use fuse_stream_mvp.Fs.Stage
use fuse_stream_mvp.Ui.Uploads.{stage_for_upload, response_of}
use fuse_stream_mvp.Ui.Uploads.Listing.{IsOffered, stage_for_upload-IsOffered}

abbrev request : Request
request = record {
  file_id = b'a' ∷ [];
  file_name = b'x' ∷ [];
  recipient_tag = b'r' ∷ [];
  size = 10;
  content_type = [];
}

abbrev staging : Stage.Env
staging = record {
  now = 7;
  space_ok = true;
  space_marks = [];
  temp_url = some (b'u' ∷ []);
  store = some 1;
  store_marks = [];
}

abbrev one_call : List Call
one_call = calls_stage_file request staging ∷ []

one_call-AllNew : AllNew one_call (new_fs true false)
unfolding new_fs is_open get
one_call-AllNew = ((λ st e. refl), tt)

stores_have_owners_example : Owned none (after true false one_call)
stores_have_owners_example = stores_have_owners true false one_call one_call-AllNew

abbrev mounted_once : Mount
mounted_once = record (new_mount true false [] []) { fs = after true false one_call; host = true }

abbrev ending : Bool → Ending
ending works = record { unregisters = λ files. files; works = works; removes = λ p. true }

one_call-idle : (after true false one_call).handles ≡ []
unfolding run new_fs stage_file create install mark_evicted evict_all_staged_files evict_each
    staged_id get put
one_call-idle = refl

stop-leaves_nothing_example :
    ((id : Text) → get id (stop (ending true) mounted_once).0.fs.staged_files ≡ none)
    × ((st : ℕ) → is_open st (stop (ending true) mounted_once).0.fs.stores ≡ false)
stop-leaves_nothing_example =
    stop-leaves_nothing true false one_call (ending true) mounted_once (omega arith) one_call-AllNew
      refl one_call-idle

stop-IsStop_example : IsStop (ending false) mounted_once (stop (ending false) mounted_once)
stop-IsStop_example = stop-IsStop (ending false) mounted_once

abbrev host : Env
host = record {
  darwin = true;
  globs = some is_stale;
  removes = λ p. true;
  found = present;
  makes_directories = true;
  started_at = 5;
  clock = λ k. 5 + 100 * k;
  mount_failed = λ k. false;
  read_dir = λ k. some false;
  prevents_app_nap = true;
}

abbrev config : Config
config = record { enable_app_nap = true; debug_single_threaded = false }

abbrev mountpoint : Text
mountpoint = b'/' ∷ b'm' ∷ []

staging-success : (stage_for_upload request staging (some (after true false []))).1.success ≡ true
unfolding stage_for_upload response_of run new_fs stage_file create install mark_evicted
    evict_all_staged_files evict_each staged_id get put
staging-success = refl

stage_for_upload-IsOffered_example :
    IsOffered (stage_for_upload request staging (some (after true false [])))
stage_for_upload-IsOffered_example =
    stage_for_upload-IsOffered true false [] request staging (omega arith) staging-success
