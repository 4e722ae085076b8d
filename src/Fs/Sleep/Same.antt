-- ===== src/Fs/Sleep/Same.antt =====
-- internal/fs/fs_fuse.go: staging and evicting leave the handles and the sleep prevention as they are.
use fuse_stream_mvp.Base.{ℕ, ◌≡◌, refl, inl, inr, [], ◌∷◌, arith, if◌then◌else◌, Option-cases}
use fuse_stream_mvp.Base.Maps.{Map, Text, get, nat_eq, text_eq}
use fuse_stream_mvp.Fs.{
  Fs, Staged, do_evict_locked, try_evict_locked, clear_tile_ref, evict_each, evict_all_staged_files,
}
use fuse_stream_mvp.Fs.Stage.{Request, Env, refresh, install, create, stage_file, mark_evicted}
use fuse_stream_mvp.Fs.Paths.{staged_id}

-- Nothing that sleep prevention reads has changed.
abbrev pub IsSame : Fs → Fs → Type 0
IsSame fs fs' =
    (fs'.handles ≡ fs.handles) × (fs'.tasks ≡ fs.tasks) × (fs'.sleep_prevented ≡ fs.sleep_prevented)

do_evict_locked-IsSame : (id : Text) (fs : Fs) → IsSame fs (do_evict_locked id fs)
unfolding do_evict_locked
do_evict_locked-IsSame id fs = ground arith

pub try_evict_locked-IsSame : (id : Text) (fs : Fs) → IsSame fs (try_evict_locked id fs)
unfolding try_evict_locked
try_evict_locked-IsSame id fs = ground (arith, do_evict_locked-IsSame id fs)

pub clear_tile_ref-IsSame : (id : Text) (fs : Fs) → IsSame fs (clear_tile_ref id fs)
unfolding clear_tile_ref
clear_tile_ref-IsSame id fs = ground arith

pub evict_each-IsSame : (m : Map Text Staged) (fs : Fs) → IsSame fs (evict_each m fs)
unfolding evict_each
evict_each-IsSame [] fs = (refl, refl, refl)
evict_each-IsSame ((id, s) ∷ m) fs =
    let cleared = clear_tile_ref id fs in
    ground (
      arith,
      clear_tile_ref-IsSame id fs,
      try_evict_locked-IsSame id cleared,
      evict_each-IsSame m (try_evict_locked id cleared),
    )

refresh-IsSame : (id : Text) (now : ℕ) (s : Staged) (fs : Fs) → IsSame fs (refresh id now s fs).0
unfolding refresh
refresh-IsSame id now s fs = ground arith

install-IsSame :
    (id : Text) (r : Request) (now st : ℕ) (fs : Fs) → IsSame fs (install id r now st fs).0
unfolding install
install-IsSame id r now st fs = ground arith

create-IsSame : (id : Text) (r : Request) (env : Env) (fs : Fs) → IsSame fs (create id r env fs).0
unfolding create
create-IsSame id r env fs =
    let marks = if fs.temp_file_mode then env.space_marks else [] in
    let checked = record fs { stores = mark_evicted marks fs.stores } in
    let served = record checked { stores = mark_evicted env.store_marks checked.stores } in
    elim (Option-cases env.store) [
      | inl failed ↦ ground (arith, failed)
      | inr (st, e) ↦ ground (arith, e, install-IsSame id r env.now st served)
    ]

pub stage_file-IsSame : (r : Request) (env : Env) (fs : Fs) → IsSame fs (stage_file r env fs).0
unfolding stage_file evict_all_staged_files
stage_file-IsSame r env fs =
    let id = staged_id r.file_id r.recipient_tag in
    let cleared = evict_each fs.staged_files fs in
    elim (Option-cases (get id cleared.staged_files)) [
      | inl new ↦
          ground (arith, new, evict_each-IsSame fs.staged_files fs, create-IsSame id r env cleared)
      | inr (s, e) ↦ ground (
        arith,
        e,
        evict_each-IsSame fs.staged_files fs,
        refresh-IsSame id env.now s cleared,
        create-IsSame id r env (refresh id env.now s cleared).0,
      )
    ]
