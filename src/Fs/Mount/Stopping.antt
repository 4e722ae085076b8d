-- ===== src/Fs/Mount/Stopping.antt =====
-- internal/fs/fs_fuse.go: what Stop leaves behind.
use fuse_stream_mvp.Base.{
  ◌≡◌, refl, inl, inr, Bool, true, false, not, ◌||◌, [], ◌∷◌, ◌++◌, if◌then◌else◌, Bool-cases,
}
use fuse_stream_mvp.Base.Maps.{Text, text_eq}
use fuse_stream_mvp.Fetcher.TempFiles.{cleanup_all_files}
use fuse_stream_mvp.Fs.{evict_all_staged_files}
use fuse_stream_mvp.Fs.Mount.{Mount, Ending, end_stop, stop, unmounts}
use fuse_stream_mvp.Fs.Sleep.Same.{evict_each-IsSame}
use fuse_stream_mvp.Fs.Tiles.{IsSwept, evict_all_staged_files-IsSwept}
use fuse_stream_mvp.Fs.Watchdog

pub record IsStop (ending : Ending) (m : Mount) (r : Mount × Bool) : Type 0 where
  pub quiet :
      (r.0.watchdog.enabled ≡ false)
      × (r.0.app_nap ≡ false)
      × (r.0.fs.sleep_prevented ≡ false)
      × (r.0.cancelled ≡ true)
  pub swept : (j : Text) → IsSwept j r.0.fs
  pub handles : r.0.fs.handles ≡ m.fs.handles
  pub mounted : r.0.mounted ≡ m.mounted
  pub answer : r.1 ≡ (not m.host || ending.works)
  pub asked : r.0.acts ≡ (if m.host then m.acts ++ unmounts ∷ [] else m.acts)
  pub temp_files : r.0.temp_files ≡ (if r.1 then [] else ending.unregisters m.temp_files)

-- Stop, on every branch: the watchdog is off, App Nap and sleep are no longer prevented, the
-- context is cancelled, only open files without a tile stay staged, and the handles and the mounted
-- flag are as before; it fails exactly when there is a host whose unmount fails, asks for the
-- unmount once if there is a host; where it succeeds, no temp file is tracked any more, and
-- otherwise those that the evicted stores leave.
pub stop-IsStop : (ending : Ending) (m : Mount) → IsStop ending m (stop ending m)
unfolding stop evict_all_staged_files end_stop cleanup_all_files
stop-IsStop ending m =
    let same = evict_each-IsSame m.fs.staged_files m.fs in
    let swept = λ (j : Text). evict_all_staged_files-IsSwept j m.fs in
    elim (Bool-cases m.host) [
      | inr alone ↦ rw (alone) (record {
        quiet = (Watchdog.stop-enabled m.watchdog, refl, refl, refl);
        swept = swept;
        handles = same.0;
        mounted = refl;
        answer = refl;
        asked = refl;
        temp_files = refl;
      })
      | inl hosted ↦ elim (Bool-cases ending.works) [
        | inl on ↦
            rw (hosted, on)
              (record {
                quiet = (Watchdog.stop-enabled m.watchdog, refl, refl, refl);
                swept = swept;
                handles = same.0;
                mounted = refl;
                answer = refl;
                asked = refl;
                temp_files = refl;
              })
        | inr off ↦
            rw (hosted, off)
              (record {
                quiet = (Watchdog.stop-enabled m.watchdog, refl, refl, refl);
                swept = swept;
                handles = same.0;
                mounted = refl;
                answer = refl;
                asked = refl;
                temp_files = refl;
              })
      ]
    ]
