-- ===== src/Fs/Mount/Starting.antt =====
-- internal/fs/fs_fuse.go: how Start ends.
use fuse_stream_mvp.Base.{
  ℕ, suc, ◌+◌, ◌≤◌, ◌<◌, ◌≡◌, Bool, true, false, ◌&&◌, ◌||◌, Option, none, some, List, [], ◌∷◌,
  ◌++◌, ltb, not,
}
use fuse_stream_mvp.Base.Maps.{Text}
use fuse_stream_mvp.Fetcher.TempFiles.Stale.{IsCleanedUp}
use fuse_stream_mvp.Fs.Mount.{
  Env, Config, Mount, MountOption, single_threaded, Act, mounts, Started, serves, mount_error,
  timed_out, hangs,
}
use fuse_stream_mvp.Fs.Watchdog

-- The mount has neither failed nor answered before the k-th check.
abbrev IsQuiet : Env → ℕ → Type 0
IsQuiet env k = (j : ℕ) → j < k → (env.mount_failed j ≡ false) × (env.read_dir j ≡ some false)

abbrev is_in_time : Env → ℕ → Bool
is_in_time env k = ltb (env.clock k) (env.started_at + 5000)

-- At some check, up to which all was quiet: the mount answers in time, the mount has failed in time,
-- ReadDir hangs, or the time is over.
abbrev pub IsAnswer : Env → Started → Type 0
IsAnswer env serves =
    (k : ℕ) × IsQuiet env k
    × (is_in_time env k ≡ true)
    × (env.mount_failed k ≡ false)
    × (env.read_dir k ≡ some true)
IsAnswer env mount_error =
    (k : ℕ) × IsQuiet env k × (is_in_time env k ≡ true) × (env.mount_failed k ≡ true)
IsAnswer env hangs =
    (k : ℕ) × IsQuiet env k
    × (is_in_time env k ≡ true)
    × (env.mount_failed k ≡ false)
    × (env.read_dir k ≡ none)
IsAnswer env timed_out = (k : ℕ) × IsQuiet env k × (is_in_time env k ≡ false)

-- Each round of the wait sleeps 100 milliseconds.
pub record HasSleep (env : Env) : Type 0 where
  pub first : env.started_at ≤ env.clock 0
  pub later : (k : ℕ) → env.clock k + 100 ≤ env.clock (suc k)

abbrev is_single : MountOption → Bool
is_single single_threaded = true
is_single _ = false

abbrev pub has_single : List MountOption → Bool
has_single [] = false
has_single (o ∷ os) = is_single o || has_single os

abbrev is_mount : Act → Bool
is_mount (mounts mountpoint options) = true
is_mount _ = false

abbrev pub has_mount : List Act → Bool
has_mount [] = false
has_mount (a ∷ as') = is_mount a || has_mount as'

-- Mounted, with App Nap prevented where that is configured and possible, exactly if the mount serves.
abbrev pub IsUp : Env → Config → Mount → Started → Mount → Type 0
IsUp env config m serves up =
    (up.mounted ≡ true)
    × (up.app_nap ≡ (m.app_nap || (config.enable_app_nap && env.prevents_app_nap)))
IsUp env config m mount_error up = (up.mounted ≡ m.mounted) × (up.app_nap ≡ m.app_nap)
IsUp env config m hangs up = (up.mounted ≡ m.mounted) × (up.app_nap ≡ m.app_nap)
IsUp env config m timed_out up = (up.mounted ≡ m.mounted) × (up.app_nap ≡ m.app_nap)

pub record IsStart (env : Env) (config : Config) (mountpoint : Text) (m : Mount)
    (r : Mount × Option Started) : Type 0 where
  pub ended : (s : Started) × (r.1 ≡ some s) × IsAnswer env s × IsUp env config m s r.0
  pub watched :
      (r.0.watchdog.enabled ≡ true)
      × (r.0.watchdog.panicked ≡ (
          m.watchdog.panicked
          || (not m.watchdog.enabled && (m.watchdog.stop_closed && m.watchdog.stopped_closed))))
  pub clean : IsCleanedUp env.globs env.removes m.temp_dir r.0.temp_dir
  pub mounted_once :
      (before : List Act) × (options : List MountOption) × (has_mount before ≡ false)
      × (r.0.acts ≡ m.acts ++ before ++ mounts mountpoint options ∷ [])
      × (has_single options ≡ config.debug_single_threaded)
  pub kept : (r.0.fs ≡ m.fs) × (r.0.temp_files ≡ m.temp_files) × (r.0.host ≡ true)

-- The end of Start leaves all but two fields.
record SameRest (m n : Mount) : Type 0 where
  watchdog : n.watchdog ≡ m.watchdog
  temp_dir : n.temp_dir ≡ m.temp_dir
  acts : n.acts ≡ m.acts
  fs : n.fs ≡ m.fs
  temp_files : n.temp_files ≡ m.temp_files
  host : n.host ≡ m.host
