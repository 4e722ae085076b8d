-- ===== src/Fs/Mount/Leftovers.antt =====
-- internal/fs/fs_fuse.go: what is left of the staged files when Stop is called and no file is open.
use fuse_stream_mvp.Base.{
  ℕ, ◌≡◌, ◌<◌, refl, inl, inr, Bool, false, none, List, [], arith, length, Bool-cases, Option-cases,
  sym, ◌∙◌, subst,
}
use fuse_stream_mvp.Base.Maps.{Text, get, nat_eq, text_eq}
use fuse_stream_mvp.Fs.{Fs, evict_all_staged_files}
use fuse_stream_mvp.Fs.Invariant.{Inv, int32_limit, evict_all_staged_files-Inv}
use fuse_stream_mvp.Fs.Mount.{Mount, Ending, stop, end_stop}
use fuse_stream_mvp.Fs.Owners.{Owned, store_of, is_open}
use fuse_stream_mvp.Fs.Owners.Calls.{evict_all_staged_files-Owned}
use fuse_stream_mvp.Fs.Owners.Runs.{AllNew, stores_have_owners}
use fuse_stream_mvp.Fs.Sleep.Same.{evict_each-IsSame}
use fuse_stream_mvp.Fs.Tiles.{evict_all_staged_files-IsSwept}
use fuse_stream_mvp.Fs.Safety.{count-eq-zero_of_empty, Call, after, after-Inv, new_fs}

stop-evicts :
    (ending : Ending) (m : Mount)
    → (stop ending m).0.fs ≡ record (evict_all_staged_files m.fs) { sleep_prevented = false }
unfolding stop end_stop
stop-evicts ending m = ground arith

-- Without handles, no staged file counts one, so that all of them go.
evict_all_staged_files-gone :
    (n : ℕ) (fs : Fs) (id : Text)
    → n < int32_limit
    → Inv n fs
    → fs.handles ≡ []
    → get id (evict_all_staged_files fs).staged_files ≡ none
unfolding evict_all_staged_files
evict_all_staged_files-gone n fs id small v idle =
    elim (Option-cases (get id (evict_all_staged_files fs).staged_files)) [
      | inl gone ↦ gone
      | inr (s, e) ↦
          let left = evict_all_staged_files-Inv n fs small v in
          let same = (evict_each-IsSame fs.staged_files fs).0 ∙ idle in
          let none_open = count-eq-zero_of_empty id _ same in
          let (no_tile, used) = evict_all_staged_files-IsSwept id fs s e in
          absurd (ground (arith, (left.counted id s e).0))
    ]

store_of_absent :
    (id : Text) (fs : Fs) → get id fs.staged_files ≡ none → store_of id fs.staged_files ≡ none
unfolding store_of
store_of_absent id fs e = rw (e, store_of) refl

evicted-closed :
    (fs : Fs)
    → Owned none fs
    → ((id : Text) → get id (evict_all_staged_files fs).staged_files ≡ none)
    → (st : ℕ) → is_open st (evict_all_staged_files fs).stores ≡ false
evicted-closed fs v gone st = elim (Bool-cases (is_open st (evict_all_staged_files fs).stores)) [
  | inr shut ↦ shut
  | inl opens ↦
      let (id, has) = (evict_all_staged_files-Owned none fs v).owner st opens in
      absurd (ground (arith, store_of_absent id (evict_all_staged_files fs) (gone id)))
]

-- After fewer than 2^31 calls whose new stores are not in use, when no handle is open, Stop leaves
-- no staged file and no open backing store, whether the unmount succeeds or not.
pub stop-leaves_nothing :
    (mode skip : Bool) (calls : List Call) (ending : Ending) (m : Mount)
    → length calls < int32_limit
    → AllNew calls (new_fs mode skip)
    → m.fs ≡ after mode skip calls
    → m.fs.handles ≡ []
    → ((id : Text) → get id (stop ending m).0.fs.staged_files ≡ none)
      × ((st : ℕ) → is_open st (stop ending m).0.fs.stores ≡ false)
stop-leaves_nothing mode skip calls ending m small new e idle =
    let v = subst (Inv (length calls)) (sym e) (after-Inv mode skip calls small) in
    let owned = subst (Owned none) (sym e) (stores_have_owners mode skip calls new) in
    let gone = λ (id : Text). evict_all_staged_files-gone (length calls) m.fs id small v idle in
    rw (stop-evicts ending m) (gone, evicted-closed m.fs owned gone)
