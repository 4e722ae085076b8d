-- ===== src/Fs/Owners/Calls.antt =====
-- internal/fs/fs_fuse.go: every call keeps the owners of the backing stores.
use fuse_stream_mvp.Base.{
  ℕ, ◌≡◌, refl, inl, inr, ◌&&◌, Option, some, [], ◌∷◌, arith, Bool-cases, Option-cases, ◌==◌,
  either,
}
use fuse_stream_mvp.Base.Maps.{Map, Text, text_beq_iff, get, put, delete, nat_eq, text_eq}
use fuse_stream_mvp.Fs.{
  Fs, Staged, Store, change_store, do_evict_locked, try_evict_locked, clear_tile_ref,
  evict_staged_file, evict_each, evict_all_staged_files, inc_ref, dec_ref, open_file,
  register_handle, drop_open_ref, release, is_evicted, find_file, open_,
}
use fuse_stream_mvp.Fs.Calls.{find_file-get}
use fuse_stream_mvp.Base.Words.{inc32, dec32}
use fuse_stream_mvp.Fs.Owners.{
  store_of, store_of-put, store_of-delete, is_open-change_store, is_open-close_store, Owned,
  same-Owned, drop-Owned,
}

do_evict_locked-Owned :
    (fresh : Option ℕ) (id : Text) (fs : Fs) → Owned fresh fs → Owned fresh (do_evict_locked id fs)
unfolding do_evict_locked store_of
do_evict_locked-Owned fresh id fs v = elim (Option-cases (get id fs.staged_files)) [
  | inl gone ↦ rw (gone, do_evict_locked) v
  | inr (s, e) ↦ elim (Option-cases s.store) [
    | inl empty ↦
        rw (e, empty, do_evict_locked)
          (same-Owned fresh fs _ v
            (λ j. ground (arith, store_of-delete j id fs.staged_files, text_beq_iff id j))
            (λ k. refl))
    | inr (st, mine) ↦
        rw (e, mine, do_evict_locked)
          (drop-Owned fresh fs _ v id st (rw (e, store_of) mine)
            (λ j. store_of-delete j id fs.staged_files) (λ k. is_open-close_store k st fs.stores))
  ]
]

-- An entry that keeps its store.
pub put_staged-Owned :
    (fresh : Option ℕ) (id : Text) (s t : Staged) (fs : Fs)
    → get id fs.staged_files ≡ some s
    → t.store ≡ s.store
    → Owned fresh fs
    → Owned fresh (record fs { staged_files = put id t fs.staged_files })
unfolding store_of
put_staged-Owned fresh id s t fs e same v =
    same-Owned fresh fs _ v
      (λ j. ground (arith, store_of-put j id t fs.staged_files, text_beq_iff id j)) (λ k. refl)

try_evict_locked-Owned :
    (fresh : Option ℕ) (id : Text) (fs : Fs) → Owned fresh fs → Owned fresh (try_evict_locked id fs)
unfolding try_evict_locked
try_evict_locked-Owned fresh id fs v = elim (Option-cases (get id fs.staged_files)) [
  | inl gone ↦ rw (gone, try_evict_locked) v
  | inr (s, e) ↦
      rw (e, try_evict_locked)
        (either (Owned fresh) (s.tile_ref == 0 && s.open_ref == 0)
          (do_evict_locked-Owned fresh id fs v) v)
]

clear_tile_ref-Owned :
    (fresh : Option ℕ) (id : Text) (fs : Fs) → Owned fresh fs → Owned fresh (clear_tile_ref id fs)
unfolding clear_tile_ref
clear_tile_ref-Owned fresh id fs v = elim (Option-cases (get id fs.staged_files)) [
  | inl gone ↦ rw (gone, clear_tile_ref) v
  | inr (s, e) ↦ rw (e, clear_tile_ref) (put_staged-Owned fresh id s _ fs e refl v)
]

evict_each-Owned :
    (fresh : Option ℕ) (m : Map Text Staged) (fs : Fs)
    → Owned fresh fs
    → Owned fresh (evict_each m fs)
unfolding evict_each
evict_each-Owned fresh [] fs v = v
evict_each-Owned fresh ((id, s) ∷ m) fs v =
    evict_each-Owned fresh m _
      (try_evict_locked-Owned fresh id _ (clear_tile_ref-Owned fresh id fs v))

pub evict_all_staged_files-Owned :
    (fresh : Option ℕ) (fs : Fs) → Owned fresh fs → Owned fresh (evict_all_staged_files fs)
unfolding evict_all_staged_files
evict_all_staged_files-Owned fresh fs v = evict_each-Owned fresh fs.staged_files fs v

pub evict_staged_file-Owned :
    (fresh : Option ℕ) (id : Text) (fs : Fs)
    → Owned fresh fs
    → Owned fresh (evict_staged_file id fs)
unfolding evict_staged_file
evict_staged_file-Owned fresh id fs v = elim (Option-cases (get id fs.staged_files)) [
  | inl gone ↦ rw (gone, evict_staged_file) v
  | inr (s, e) ↦
      rw (e, evict_staged_file)
        (try_evict_locked-Owned fresh id _ (clear_tile_ref-Owned fresh id fs v))
]

-- A reference more or less.
pub ref-Owned :
    (fresh : Option ℕ) (st : ℕ) (f : Store → Store) (fs : Fs)
    → ((s : Store) → (f s).closed ≡ s.closed)
    → Owned fresh fs
    → Owned fresh (record fs { stores = change_store st f fs.stores })
ref-Owned fresh st f fs same v =
    same-Owned fresh fs _ v (λ j. refl) (λ k. is_open-change_store k st f fs.stores same)

register_handle-Owned :
    (fresh : Option ℕ) (path id : Text) (s : Staged) (st : ℕ) (fs : Fs)
    → get id fs.staged_files ≡ some s
    → Owned fresh fs
    → Owned fresh (register_handle path id s st fs).0
unfolding register_handle inc_ref
register_handle-Owned fresh path id s st fs e v =
    let opened = record s {
      open_ref = inc32 s.open_ref;
      file = record s.file { status = open_ };
    } in
    let counted =
      ref-Owned fresh st (λ o. record o { ref_count = inc32 o.ref_count }) fs (λ o. refl) v in
    let kept = put_staged-Owned fresh id s opened _ e refl counted in
    same-Owned fresh _ _ kept (λ j. refl) (λ k. refl)

pub open_file-Owned :
    (fresh : Option ℕ) (path : Text) (fs : Fs) → Owned fresh fs → Owned fresh (open_file path fs).0
unfolding open_file
open_file-Owned fresh path fs v = elim (Option-cases (find_file path fs)) [
  | inl gone ↦ rw (gone, open_file) v
  | inr ((id, s), e) ↦ elim (Option-cases s.store) [
    | inl empty ↦ rw (e, empty, open_file) v
    | inr (st, mine) ↦ elim (Bool-cases (is_evicted st fs.stores)) [
      | inl lost ↦ rw (e, mine, lost, open_file) v
      | inr ready ↦
          rw (e, mine, ready, open_file)
            (register_handle-Owned fresh path id s st fs (find_file-get path fs id s e) v)
    ]
  ]
]

drop_open_ref-Owned :
    (fresh : Option ℕ) (id : Text) (fs : Fs) → Owned fresh fs → Owned fresh (drop_open_ref id fs)
unfolding drop_open_ref
drop_open_ref-Owned fresh id fs v = elim (Option-cases (get id fs.staged_files)) [
  | inl gone ↦ rw (gone, drop_open_ref) v
  | inr (s, e) ↦
      let n = dec32 s.open_ref in
      let kept = put_staged-Owned fresh id s (record s { open_ref = n }) fs e refl v in
      rw (e, drop_open_ref)
        (either (Owned fresh) (s.tile_ref == 0 && n == 0)
          (either (Owned fresh) fs.debug_skip_eviction kept
            (try_evict_locked-Owned fresh id _ kept))
          kept)
]

pub release-Owned :
    (fresh : Option ℕ) (fh : ℕ) (fs : Fs) → Owned fresh fs → Owned fresh (release fh fs).0
unfolding release dec_ref
release-Owned fresh fh fs v = elim (Option-cases (get fh fs.handles)) [
  | inl gone ↦ rw (gone, release) v
  | inr (h, e) ↦
      rw (e, release)
        (let counted =
            ref-Owned fresh h.store (λ o. record o { ref_count = dec32 o.ref_count }) fs (λ o. refl)
              v in
          let freed =
            same-Owned fresh _
              (record fs { handles = delete fh fs.handles; stores = dec_ref h.store fs.stores })
              counted (λ j. refl) (λ k. refl) in
          same-Owned fresh _ _ (drop_open_ref-Owned fresh h.staged _ freed) (λ j. refl) (λ k. refl))
]
