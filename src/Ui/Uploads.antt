-- ===== src/Ui/Uploads.antt =====
-- ui/app_common.go: the files that the window stages, over the file system of `daemon.GetFS`, which
-- is `none` where there is none. A path of a file is that below the
-- mountpoint: `some []` where there is none, and `none` where it leads out of the mountpoint.
pub mod Listing
use fuse_stream_mvp.Base.{ℕ, Bool, true, false, Option, none, some, List, [], ◌∷◌, map}
use fuse_stream_mvp.Base.Maps.{Text}
use fuse_stream_mvp.Fs
use fuse_stream_mvp.Fs.{Fs, Status, StagedFile}
use fuse_stream_mvp.Fs.Paths.{join}
use fuse_stream_mvp.Fs.Stage.{Request, Env, Error, Staging, staged, fails, stage_file}

pub data Message : Type 0 where
  not_available staged_successfully : Message
  failed_to_stage : Error → Message

pub record StageResponse : Type 0 where
  pub success : Bool
  pub file_path : Option Text
  pub message : Message

pub record StagedFileInfo : Type 0 where
  pub id : Text
  pub file_name : Text
  pub file_path : Option Text
  pub size : ℕ
  pub recipient_tag : Text
  pub status : Status

-- `GetFilePath`
abbrev pub get_file_path : StagedFile → Option Text
get_file_path f = join f.id f.file_name

unfoldable pub response_of : Staging → StageResponse
response_of (staged f) = record {
  success = true;
  file_path = get_file_path f;
  message = staged_successfully;
}
response_of (fails e) = record { success = false; file_path = some []; message = failed_to_stage e }

unfoldable pub stage_for_upload : Request → Env → Option Fs → Option Fs × StageResponse
stage_for_upload r env none =
    (none, record { success = false; file_path = some []; message = not_available })
stage_for_upload r env (some fs) =
    let (fs', result) = stage_file r env fs in (some fs', response_of result)

unfoldable pub staged_file_info : StagedFile → StagedFileInfo
staged_file_info f = record {
  id = f.id;
  file_name = f.file_name;
  file_path = get_file_path f;
  size = f.size;
  recipient_tag = f.recipient_tag;
  status = f.status;
}

unfoldable pub get_staged_files : Option Fs → List StagedFileInfo
get_staged_files none = []
get_staged_files (some fs) = map staged_file_info (Fs.get_staged_files fs)

-- EvictStagedFile and EvictAllStagedFiles, with whether there is no error.
unfoldable pub evict_staged_file : Text → Option Fs → Option Fs × Bool
evict_staged_file id none = (none, false)
evict_staged_file id (some fs) = (some (Fs.evict_staged_file id fs), true)

unfoldable pub evict_all_staged_files : Option Fs → Option Fs × Bool
evict_all_staged_files none = (none, false)
evict_all_staged_files (some fs) = (some (Fs.evict_all_staged_files fs), true)

unfoldable pub has_active_uploads : Option Fs → Bool
has_active_uploads none = false
has_active_uploads (some fs) = Fs.has_active_uploads fs.staged_files
