-- ===== src/Fs/Mount.antt =====
-- internal/fs/fs_fuse.go: Start, Stop, ForceUnmount and the App Nap prevention of a mounted file
-- system.
--
-- `Env` is the system during one call of Start: its answers, the clock at the k-th check of the
-- deadline, whether the mount has failed by then and whether the k-th ReadDir succeeds, or `none` where
-- it never returns; `globs` is that of CleanupStaleFiles. Times are in milliseconds. `acts` lists what the process has asked of the system.
pub mod Starting
pub mod Stopping
pub mod Leftovers
use fuse_stream_mvp.Base.{
  ℕ, zero, suc, ◌+◌, Bool, true, false, not, Option, none, some, List, [], ◌∷◌, ◌++◌, ltb,
  if◌then◌else◌,
}
use fuse_stream_mvp.Base.Maps.{Text}
use fuse_stream_mvp.Fetcher.TempFiles.{Files, cleanup_all_files}
use fuse_stream_mvp.Fetcher.TempFiles.Stale.{cleanup_stale_files}
use fuse_stream_mvp.Fs.{Fs, evict_all_staged_files}
use fuse_stream_mvp.Fs.Paths.{slash, cut_prefix}
use fuse_stream_mvp.Fs.Watchdog
use fuse_stream_mvp.Fs.Watchdog.{Watchdog, new_watchdog}
use fuse_stream_mvp.Fs.Safety.{new_fs}

pub data MountOption : Type 0 where
  read_only fs_name single_threaded local_ vol_name backend_fskit : MountOption

pub data Act : Type 0 where
  makes_directory : Text → Act
  force_unmounts : Text → Act
  mounts : Text → List MountOption → Act
  unmounts : Act

-- What os.Stat says of the mountpoint.
pub data Found : Type 0 where
  present missing inaccessible : Found

pub record Config : Type 0 where
  pub enable_app_nap : Bool
  pub debug_single_threaded : Bool

pub record Env : Type 0 where
  pub darwin : Bool
  pub globs : Option (Text → Bool)
  pub removes : Text → Bool
  pub found : Found
  pub makes_directories : Bool
  pub started_at : ℕ
  pub clock : ℕ → ℕ
  pub mount_failed : ℕ → Bool
  pub read_dir : ℕ → Option Bool
  pub prevents_app_nap : Bool

-- `fuseFS`: `app_nap` says whether there is an appNapRelease, `temp_files` is the manager's map and
-- `temp_dir` its directory.
pub record Mount : Type 0 where
  pub fs : Fs
  pub watchdog : Watchdog
  pub temp_files : Files
  pub temp_dir : List Text
  pub mountpoint : Text
  pub mounted : Bool
  pub app_nap : Bool
  pub cancelled : Bool
  pub host : Bool
  pub acts : List Act

-- `newFS`, beside a temp file manager and its directory.
unfoldable pub new_mount : Bool → Bool → Files → List Text → Mount
new_mount temp_file_mode debug_skip_eviction files dir = record {
  fs = new_fs temp_file_mode debug_skip_eviction;
  watchdog = new_watchdog;
  temp_files = files;
  temp_dir = dir;
  mountpoint = [];
  mounted = false;
  app_nap = false;
  cancelled = false;
  host = false;
  acts = [];
}

-- "/Volumes/"
abbrev pub volumes : Text
volumes = slash ∷ b'V' ∷ b'o' ∷ b'l' ∷ b'u' ∷ b'm' ∷ b'e' ∷ b's' ∷ slash ∷ []

-- The acts and whether there is no error.
unfoldable pub recover_stale_mount_mac_os : Env → Text → List Act × Bool
recover_stale_mount_mac_os env mountpoint = elim env.found [
  | inaccessible ↦ ([], true)
  | missing ↦ elim (cut_prefix volumes mountpoint) [
    | some _ ↦ ([], true)
    | none ↦ (makes_directory mountpoint ∷ [], env.makes_directories)
  ]
  | present ↦ (force_unmounts mountpoint ∷ [], true)
]

unfoldable pub mount_options : Bool → Config → List MountOption
mount_options darwin config =
    (read_only ∷ fs_name ∷ [])
    ++ (if config.debug_single_threaded then single_threaded ∷ [] else [])
    ++ (if darwin then local_ ∷ vol_name ∷ backend_fskit ∷ [] else [])

unfoldable pub enable_app_nap_prevention : Bool → Mount → Mount
enable_app_nap_prevention works m =
    if m.app_nap then m else if works then record m { app_nap = true } else m

unfoldable pub disable_app_nap_prevention : Mount → Mount
disable_app_nap_prevention m = if not m.app_nap then m else record m { app_nap = false }

-- How the wait for the mount ends: it hangs in a ReadDir that never returns.
pub data Started : Type 0 where
  serves mount_error timed_out hangs : Started

-- The wait for the mount, from the k-th check of the deadline on; `none` where the fuel is used up.
unfoldable pub poll : Env → ℕ → ℕ → Option Started
poll env zero k = none
poll env (suc n) k =
    let rest = poll env n (suc k) in
    if not (ltb (env.clock k) (env.started_at + 5000))
    then some timed_out
    else if env.mount_failed k
    then some mount_error
    else elim (env.read_dir k) [
      | none ↦ some hangs
      | some answers ↦ if answers then some serves else rest
    ]

-- Start up to the wait.
unfoldable pub begin_mount : Env → Config → Text → Mount → Mount
begin_mount env config mountpoint m =
    let recovery = if env.darwin then (recover_stale_mount_mac_os env mountpoint).0 else [] in
    record m {
      mountpoint = mountpoint;
      watchdog = Watchdog.start m.watchdog;
      temp_dir = cleanup_stale_files env.globs env.removes m.temp_dir;
      host = true;
      acts = m.acts ++ recovery ++ mounts mountpoint (mount_options env.darwin config) ∷ [];
    }

-- Each round sleeps 100 of the 5000 milliseconds, so that 51 checks are enough.
abbrev pub poll_fuel : ℕ
poll_fuel = 51

unfoldable pub end_start : Env → Config → Started → Mount → Mount
end_start env config serves m =
    let up = record m { mounted = true } in
    if config.enable_app_nap then enable_app_nap_prevention env.prevents_app_nap up else up
end_start env config mount_error m = m
end_start env config timed_out m = m
end_start env config hangs m = m

-- Where the result is `hangs`, Start has not returned.
unfoldable pub start : Env → Config → Text → Mount → Mount × Option Started
start env config mountpoint m =
    let begun = begin_mount env config mountpoint m in
    elim (poll env poll_fuel 0) [
      | none ↦ (begun, none)
      | some s ↦ (end_start env config s begun, some s)
    ]

-- CleanupAllFiles, after the unmount.
unfoldable pub end_stop : (Text → Bool) → Mount → Mount
end_stop removes m = record m { temp_files = (cleanup_all_files removes m.temp_files).0 }

-- What Stop meets: how the stores that it evicts unregister their temp files as they close, whether the
-- host unmounts, and which temp files can be removed.
pub record Ending : Type 0 where
  pub unregisters : Files → Files
  pub works : Bool
  pub removes : Text → Bool

-- The result says whether there is no error.
unfoldable pub stop : Ending → Mount → Mount × Bool
stop e m =
    let quiet = record m {
      watchdog = Watchdog.stop m.watchdog;
      fs = record (evict_all_staged_files m.fs) { sleep_prevented = false };
      temp_files = e.unregisters m.temp_files;
      app_nap = false;
      cancelled = true;
    } in
    let asked = record quiet { acts = m.acts ++ unmounts ∷ [] } in
    if m.host
    then (if e.works then (end_stop e.removes asked, true) else (asked, false))
    else (end_stop e.removes quiet, true)

-- `works` says whether one of the two commands succeeds.
unfoldable pub force_unmount : Bool → Bool → Mount → Mount × Bool
force_unmount darwin works m =
    let asked = record m { acts = m.acts ++ force_unmounts m.mountpoint ∷ [] } in
    if darwin
    then (if works then (record asked { mounted = false }, true) else (asked, false))
    else (m, false)
