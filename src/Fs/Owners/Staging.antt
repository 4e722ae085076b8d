-- ===== src/Fs/Owners/Staging.antt =====
-- internal/fs/fs_fuse.go: StageFile keeps the owners of the backing stores, and gives the new one an
-- owner or closes it.
use fuse_stream_mvp.Base.{
  ℕ, ◌≡◌, refl, inl, inr, true, false, not, ◌&&◌, Option, none, some, List, [], ◌∷◌, arith,
  if◌then◌else◌, Bool-cases, Option-cases, ==_iff,
}
use fuse_stream_mvp.Base.Maps.{Text, get, put, nat_eq, text_eq}
use fuse_stream_mvp.Fs.{Fs, Staged, Store, evict_all_staged_files, is_evicted, ready}
use fuse_stream_mvp.Fs.Stage.{
  Request, Env, new_file, refresh, install, create, stage_file, mark_evicted,
}
use fuse_stream_mvp.Fs.Paths.{staged_id}
use fuse_stream_mvp.Fs.Owners.{
  store_of, store_of-put, is_open-put, is_open-close_store, Owned, same-Owned, drop-Owned,
  add-Owned, forget-Owned,
}
use fuse_stream_mvp.Fs.Owners.Calls.{put_staged-Owned, ref-Owned, evict_all_staged_files-Owned}

mark_evicted-Owned :
    (fresh : Option ℕ) (sts : List ℕ) (fs : Fs)
    → Owned fresh fs
    → Owned fresh (record fs { stores = mark_evicted sts fs.stores })
unfolding mark_evicted
mark_evicted-Owned fresh [] fs v = v
mark_evicted-Owned fresh (st ∷ sts) fs v =
    mark_evicted-Owned fresh sts _
      (ref-Owned fresh st (λ o. record o { evicted = true }) fs (λ o. refl) v)

refresh-Owned :
    (fresh : Option ℕ) (id : Text) (now : ℕ) (s : Staged) (fs : Fs)
    → get id fs.staged_files ≡ some s
    → Owned fresh fs
    → Owned fresh (refresh id now s fs).0
unfolding refresh store_of
refresh-Owned fresh id now s fs e v =
    let touched = record s { tile_ref = 1; file = record s.file { mod_time = now } } in
    let kept = put_staged-Owned fresh id s touched fs e refl v in
    elim (Option-cases s.store) [
      | inl empty ↦ rw (empty, refresh) kept
      | inr (st, mine) ↦ elim (Bool-cases (is_evicted st fs.stores)) [
        | inr valid ↦ rw (mine, valid, refresh) kept
        | inl lost ↦
            rw (mine, lost, refresh)
              (drop-Owned fresh fs _ v id st (rw (e, store_of) mine)
                (λ j. store_of-put j id (record touched { store = none }) fs.staged_files)
                (λ k. is_open-close_store k st fs.stores))
      ]
    ]

abbrev new_store : Store
new_store = record { ref_count = 0; closed = false; evicted = false }

install-Owned :
    (fresh : Option ℕ) (id : Text) (r : Request) (now st : ℕ) (fs : Fs)
    → fresh ≡ some st
    → Owned fresh fs
    → Owned none (install id r now st fs).0
unfolding install store_of
install-Owned fresh id r now st fs next v =
    let opens = λ (k : ℕ). is_open-put k st new_store fs.stores in
    elim (Option-cases (get id fs.staged_files)) [
      | inl gone ↦
          let made : Staged = record {
            file = new_file id r now;
            store = some st;
            tile_ref = 1;
            open_ref = 0;
          } in
          rw (gone, install)
            (add-Owned fresh fs _ v id st next (rw (gone, store_of) refl)
              (λ j. store_of-put j id made fs.staged_files) opens)
      | inr (s, e) ↦ elim (Option-cases s.store) [
        | inr (old, mine) ↦
            rw (e, mine, install)
              (forget-Owned fresh _ (
                same-Owned fresh fs _ v (λ j. refl)
                  (λ k. ground (
                    arith,
                    is_open-close_store k st (put st new_store fs.stores),
                    opens k,
                    v.free st next,
                    ==_iff st k,
                  ))))
        | inl empty ↦
            let file = record s.file { status = ready } in
            rw (e, empty, install)
              (add-Owned fresh fs _ v id st next (rw (e, store_of) empty)
                (λ j. store_of-put j id (record s { store = some st; file = file }) fs.staged_files)
                opens)
      ]
    ]

create-Owned :
    (id : Text) (r : Request) (env : Env) (fs : Fs)
    → Owned env.store fs
    → Owned none (create id r env fs).0
unfolding create
create-Owned id r env fs v =
    let marks = if fs.temp_file_mode then env.space_marks else [] in
    let checked = mark_evicted-Owned env.store marks fs v in
    elim (Bool-cases (fs.temp_file_mode && not env.space_ok)) [
      | inl full ↦ rw (full, create) (forget-Owned _ _ checked)
      | inr room ↦ elim (Option-cases env.temp_url) [
        | inl no_url ↦ rw (room, no_url, create) (forget-Owned _ _ checked)
        | inr (url, given) ↦
            let marked = mark_evicted-Owned env.store env.store_marks _ checked in
            elim (Option-cases env.store) [
              | inl unmade ↦ rw (room, given, unmade, create) (forget-Owned _ _ marked)
              | inr (st, made) ↦
                  rw (room, given, made, create)
                    (install-Owned env.store id r env.now st _ made marked)
            ]
      ]
    ]

pub stage_file-Owned :
    (r : Request) (env : Env) (fs : Fs) → Owned env.store fs → Owned none (stage_file r env fs).0
unfolding stage_file
stage_file-Owned r env fs v =
    let id = staged_id r.file_id r.recipient_tag in
    let cleared = evict_all_staged_files-Owned env.store fs v in
    elim (Option-cases (get id (evict_all_staged_files fs).staged_files)) [
      | inl gone ↦ rw (gone, stage_file) (create-Owned id r env _ cleared)
      | inr (s, e) ↦
          let again = refresh-Owned env.store id env.now s _ e cleared in
          elim (Option-cases (refresh id env.now s (evict_all_staged_files fs)).1) [
            | inl lost ↦ rw (e, lost, stage_file) (create-Owned id r env _ again)
            | inr (s', kept) ↦ rw (e, kept, stage_file) (forget-Owned _ _ again)
          ]
    ]
