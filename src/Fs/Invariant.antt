-- ===== src/Fs/Invariant.antt =====
-- internal/fs/fs_fuse.go: the count of open handles that each staged file keeps.
use fuse_stream_mvp.Base.{
  ℕ, ◌+◌, ◌≤◌, ◌<◌, ◌≡◌, inl, inr, ◌&&◌, none, some, [], ◌∷◌, arith, ◌==◌, length, Bool-cases,
  Option-cases,
}
use fuse_stream_mvp.Base.Maps.{
  Map, Text, text_beq_iff, get, put, delete, nat_eq, text_eq, IsMap, get-put, get-delete, put-IsMap,
  delete-IsMap,
}
use fuse_stream_mvp.Base.Words.{u32}
use fuse_stream_mvp.Fs.{
  Fs, Staged, Store, Handle, do_evict_locked, try_evict_locked, clear_tile_ref, evict_staged_file,
  evict_each, evict_all_staged_files,
}
use fuse_stream_mvp.Fs.Handles.{count, count-le-length}

abbrev pub int32_limit : ℕ
int32_limit = 2147483648

-- After at most `n` calls of Open: each staged file counts its open handles, a handle is one of a
-- staged file, and the next handle is new.
pub record Inv (n : ℕ) (fs : Fs) : Type 0 where
  pub counted :
      (id : Text) (s : Staged)
      → get id fs.staged_files ≡ some s
      → (s.open_ref ≡ u32 (count id fs.handles)) × (s.file.id ≡ id)
  pub known : (id : Text) → get id fs.staged_files ≡ none → count id fs.handles ≡ 0
  pub distinct : IsMap fs.staged_files
  pub unique : IsMap fs.handles
  pub fresh : (fh : ℕ) (h : Handle) → get fh fs.handles ≡ some h → fh < fs.next_fh
  pub few : length fs.handles ≤ n
  pub next : fs.next_fh ≤ n + 1

-- An entry that keeps its count and its id may be replaced.
pub put_staged-Inv :
    (n : ℕ) (fs : Fs) (id : Text) (s : Staged)
    → s.open_ref ≡ u32 (count id fs.handles)
    → s.file.id ≡ id
    → Inv n fs
    → Inv n (record fs { staged_files = put id s fs.staged_files })
put_staged-Inv n fs id s same named v = record {
  counted =
      λ j t e. ground (arith, get-put j id s fs.staged_files, text_beq_iff id j, v.counted j t);
  known = λ j e. ground (arith, get-put j id s fs.staged_files, v.known j);
  distinct = put-IsMap id s fs.staged_files v.distinct;
  unique = v.unique;
  fresh = v.fresh;
  few = v.few;
  next = v.next;
}

-- A file without handles may go.
delete_staged-Inv :
    (n : ℕ) (fs : Fs) (id : Text)
    → count id fs.handles ≡ 0
    → Inv n fs
    → Inv n (record fs { staged_files = delete id fs.staged_files })
delete_staged-Inv n fs id unused v = record {
  counted = λ j t e. ground (arith, get-delete j id fs.staged_files, v.counted j t);
  known = λ j e. ground (arith, get-delete j id fs.staged_files, text_beq_iff id j, v.known j);
  distinct = delete-IsMap id fs.staged_files v.distinct;
  unique = v.unique;
  fresh = v.fresh;
  few = v.few;
  next = v.next;
}

-- The stores do not matter.
pub stores-Inv :
    (n : ℕ) (fs : Fs) (stores : Map ℕ Store) → Inv n fs → Inv n (record fs { stores = stores })
stores-Inv n fs stores v = record {
  counted = v.counted;
  known = v.known;
  distinct = v.distinct;
  unique = v.unique;
  fresh = v.fresh;
  few = v.few;
  next = v.next;
}

clear_tile_ref-Inv : (n : ℕ) (id : Text) (fs : Fs) → Inv n fs → Inv n (clear_tile_ref id fs)
unfolding clear_tile_ref
clear_tile_ref-Inv n id fs v = elim (Option-cases (get id fs.staged_files)) [
  | inl none_at ↦ rw (none_at, clear_tile_ref) v
  | inr (s, e) ↦
      let (same, named) = v.counted id s e in
      rw (e, clear_tile_ref) (put_staged-Inv n fs id (record s { tile_ref = 0 }) same named v)
]

-- Below the limit a count of 0 means that there is no handle.
count-eq-zero :
    (n : ℕ) (fs : Fs) (id : Text) (s : Staged)
    → n < int32_limit
    → Inv n fs
    → get id fs.staged_files ≡ some s
    → s.open_ref ≡ 0
    → count id fs.handles ≡ 0
count-eq-zero n fs id s small v e zero_ref =
    omega (arith, (v.counted id s e).0, count-le-length id fs.handles, v.few)

do_evict_locked-Inv :
    (n : ℕ) (id : Text) (fs : Fs)
    → count id fs.handles ≡ 0
    → Inv n fs
    → Inv n (do_evict_locked id fs)
unfolding do_evict_locked
do_evict_locked-Inv n id fs unused v = elim (Option-cases (get id fs.staged_files)) [
  | inl none_at ↦ rw (none_at, do_evict_locked) v
  | inr (s, e) ↦ rw (e, do_evict_locked) (stores-Inv n _ _ (delete_staged-Inv n fs id unused v))
]

pub try_evict_locked-Inv :
    (n : ℕ) (id : Text) (fs : Fs) → n < int32_limit → Inv n fs → Inv n (try_evict_locked id fs)
unfolding try_evict_locked
try_evict_locked-Inv n id fs small v = elim (Option-cases (get id fs.staged_files)) [
  | inl none_at ↦ rw (none_at, try_evict_locked) v
  | inr (s, e) ↦ elim (Bool-cases (s.tile_ref == 0 && s.open_ref == 0)) [
    | inr held ↦ rw (e, held, try_evict_locked) v
    | inl free ↦
        rw (e, free, try_evict_locked)
          (do_evict_locked-Inv n id fs (count-eq-zero n fs id s small v e (ground arith)) v)
  ]
]

evict_each-Inv :
    (n : ℕ) (m : Map Text Staged) (fs : Fs) → n < int32_limit → Inv n fs → Inv n (evict_each m fs)
unfolding evict_each
evict_each-Inv n [] fs small v = v
evict_each-Inv n ((id, s) ∷ m) fs small v =
    evict_each-Inv n m _ small (try_evict_locked-Inv n id _ small (clear_tile_ref-Inv n id fs v))

pub evict_all_staged_files-Inv :
    (n : ℕ) (fs : Fs) → n < int32_limit → Inv n fs → Inv n (evict_all_staged_files fs)
unfolding evict_all_staged_files
evict_all_staged_files-Inv n fs small v = evict_each-Inv n fs.staged_files fs small v

pub evict_staged_file-Inv :
    (n : ℕ) (id : Text) (fs : Fs) → n < int32_limit → Inv n fs → Inv n (evict_staged_file id fs)
unfolding evict_staged_file
evict_staged_file-Inv n id fs small v =
    ground
      (arith, try_evict_locked-Inv n id (clear_tile_ref id fs) small (clear_tile_ref-Inv n id fs v))
