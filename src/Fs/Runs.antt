-- ===== src/Fs/Runs.antt =====
-- internal/fs/fs_fuse.go: any sequence of calls, from the empty file system on.
use fuse_stream_mvp.Base.{
  ℕ, ◌<◌, ◌≡◌, refl, inl, inr, false, ◌&&◌, not, none, some, [], arith, if◌then◌else◌, Bool-cases,
  Option-cases,
}
use fuse_stream_mvp.Base.Maps.{Text, get, put, nat_eq, text_eq}
use fuse_stream_mvp.Fs.{Fs, Staged, evict_all_staged_files, close_store, is_evicted, ready}
use fuse_stream_mvp.Fs.Paths.{staged_id}
use fuse_stream_mvp.Fs.Stage.{
  Request, Env, mark_evicted, refresh, new_file, install, create, stage_file,
}
use fuse_stream_mvp.Fs.Invariant.{
  Inv, int32_limit, put_staged-Inv, stores-Inv, evict_all_staged_files-Inv,
}

refresh-Inv :
    (n : ℕ) (id : Text) (now : ℕ) (s : Staged) (fs : Fs)
    → get id fs.staged_files ≡ some s
    → Inv n fs
    → Inv n (refresh id now s fs).0
unfolding refresh
refresh-Inv n id now s fs e v =
    let (same, named) = v.counted id s e in
    let touched : Staged = record s { tile_ref = 1; file = record s.file { mod_time = now } } in
    let kept = put_staged-Inv n fs id touched same named v in
    let lost = put_staged-Inv n fs id (record touched { store = none }) same named v in
    elim (Option-cases s.store) [
      | inl unready ↦ rw (unready, refresh) kept
      | inr (st, f) ↦ elim (Bool-cases (is_evicted st fs.stores)) [
        | inr here ↦ rw (f, here, refresh) kept
        | inl gone ↦
            rw (f, gone, refresh)
              (stores-Inv n
                (record fs {
                  staged_files = put id (record touched { store = none }) fs.staged_files;
                })
                (close_store st fs.stores) lost)
      ]
    ]

install-Inv :
    (n : ℕ) (id : Text) (r : Request) (now st : ℕ) (fs : Fs)
    → Inv n fs
    → Inv n (install id r now st fs).0
unfolding install
install-Inv n id r now st fs v =
    let made = put st (record { ref_count = 0; closed = false; evicted = false }) fs.stores in
    elim (Option-cases (get id fs.staged_files)) [
      | inl new ↦
          let s : Staged = record {
            file = new_file id r now;
            store = some st;
            tile_ref = 1;
            open_ref = 0;
          } in
          rw (new, install)
            (put_staged-Inv n (record fs { stores = made }) id s (ground (arith, v.known id new))
              refl (stores-Inv n fs made v))
      | inr (s, e) ↦ elim (Option-cases s.store) [
        | inr (old, f) ↦ rw (e, f, install) (stores-Inv n fs (close_store st made) v)
        | inl unready ↦
            let (same, named) = v.counted id s e in
            rw (e, unready, install)
              (put_staged-Inv n (record fs { stores = made }) id
                (record s { store = some st; file = record s.file { status = ready } }) same named
                (stores-Inv n fs made v))
      ]
    ]

create-Inv :
    (n : ℕ) (id : Text) (r : Request) (env : Env) (fs : Fs)
    → Inv n fs
    → Inv n (create id r env fs).0
unfolding create
create-Inv n id r env fs v =
    let marks = if fs.temp_file_mode then env.space_marks else [] in
    let checked = record fs { stores = mark_evicted marks fs.stores } in
    let w = stores-Inv n fs (mark_evicted marks fs.stores) v in
    let marked = mark_evicted env.store_marks checked.stores in
    let u = stores-Inv n checked marked w in
    elim (Bool-cases (fs.temp_file_mode && not env.space_ok)) [
      | inl full ↦ rw (full, create) w
      | inr room ↦ elim (Option-cases env.temp_url) [
        | inl failed ↦ rw (room, failed, create) w
        | inr (url, e) ↦ elim (Option-cases env.store) [
          | inl failed ↦ rw (room, e, failed, create) u
          | inr (st, f) ↦
              rw (room, e, f, create)
                (install-Inv n id r env.now st (record checked { stores = marked }) u)
        ]
      ]
    ]

pub stage_file-Inv :
    (n : ℕ) (r : Request) (env : Env) (fs : Fs)
    → n < int32_limit
    → Inv n fs
    → Inv n (stage_file r env fs).0
unfolding stage_file
stage_file-Inv n r env fs small v =
    let id = staged_id r.file_id r.recipient_tag in
    let cleared = evict_all_staged_files fs in
    let w = evict_all_staged_files-Inv n fs small v in
    elim (Option-cases (get id cleared.staged_files)) [
      | inl new ↦ rw (new, stage_file) (create-Inv n id r env cleared w)
      | inr (s, e) ↦
          let (fs', valid) = refresh id env.now s cleared in
          let u = refresh-Inv n id env.now s cleared e w in
          elim (Option-cases valid) [
            | inl stale ↦ rw (e, stale, stage_file) (create-Inv n id r env fs' u)
            | inr (s', f) ↦ rw (e, f, stage_file) u
          ]
    ]
