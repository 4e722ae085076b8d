-- ===== src/Fs/Tiles.antt =====
-- internal/fs/fs_fuse.go: which staged files survive EvictAllStagedFiles and StageFile.
use fuse_stream_mvp.Base.{
  ◌≡◌, refl, ◌≢◌, inl, inr, subst, true, Option, none, some, [], ◌∷◌, arith, if◌then◌else◌,
  Bool-cases, Option-cases,
}
use fuse_stream_mvp.Base.Maps.{
  Map, Text, text_beq, text_beq_iff, text_beq_refl, get, nat_eq, text_eq, get-put, get-delete,
}
use fuse_stream_mvp.Fs.{
  Fs, Staged, do_evict_locked, try_evict_locked, clear_tile_ref, evict_each, evict_all_staged_files,
}

-- The file, if staged, has no tile and is open.
abbrev pub IsSwept : Text → Fs → Type 0
IsSwept id fs = (s : Staged) → get id fs.staged_files ≡ some s → (s.tile_ref ≡ 0) × (s.open_ref ≢ 0)

abbrev pub evict_one : Text → Fs → Fs
evict_one id fs = try_evict_locked id (clear_tile_ref id fs)

get-do_evict_locked :
    (j id : Text) (fs : Fs)
    → get j (do_evict_locked id fs).staged_files
      ≡ (if text_beq id j then none else get j fs.staged_files)
unfolding do_evict_locked
get-do_evict_locked j id fs = ground (arith, get-delete j id fs.staged_files, text_beq_iff id j)

abbrev without_tile : Option Staged → Option Staged
without_tile none = none
without_tile (some s) = some (record s { tile_ref = 0 })

get-clear_tile_ref :
    (j id : Text) (fs : Fs)
    → get j (clear_tile_ref id fs).staged_files
      ≡ (if text_beq id j then without_tile (get j fs.staged_files) else get j fs.staged_files)
unfolding clear_tile_ref
get-clear_tile_ref j id fs = elim (Option-cases (get id fs.staged_files)) [
  | inl gone ↦ ground (arith, text_beq_iff id j)
  | inr (s, e) ↦
      ground (arith, text_beq_iff id j, get-put j id (record s { tile_ref = 0 }) fs.staged_files)
]

-- What is found after an eviction was there, and is not the evicted file unless that is open.
get-try_evict_locked :
    (j id : Text) (fs : Fs) (s : Staged)
    → get j (try_evict_locked id fs).staged_files ≡ some s
    → (get j fs.staged_files ≡ some s) × (text_beq id j ≡ true → s.tile_ref ≡ 0 → s.open_ref ≢ 0)
unfolding try_evict_locked
get-try_evict_locked j id fs s e = ground (arith, text_beq_iff id j, get-do_evict_locked j id fs)

evict_one_self : (id : Text) (fs : Fs) → IsSwept id (evict_one id fs)
evict_one_self id fs s e =
    let (found, last) = get-try_evict_locked id id (clear_tile_ref id fs) s e in
    let same = get-clear_tile_ref id id fs in ground (arith, text_beq_refl id)

evict_one-IsSwept : (j id : Text) (fs : Fs) → IsSwept j fs → IsSwept j (evict_one id fs)
evict_one-IsSwept j id fs swept s e =
    let (found, last) = get-try_evict_locked j id (clear_tile_ref id fs) s e in
    let same = get-clear_tile_ref j id fs in ground (arith, text_beq_iff id j, swept s)

evict_each-IsSwept :
    (j : Text) (m : Map Text Staged) (fs : Fs) → IsSwept j fs → IsSwept j (evict_each m fs)
unfolding evict_each
evict_each-IsSwept j [] fs swept = swept
evict_each-IsSwept j ((id, s) ∷ m) fs swept =
    evict_each-IsSwept j m (evict_one id fs) (evict_one-IsSwept j id fs swept)

evict_each-listed :
    (j : Text) (m : Map Text Staged) (fs : Fs) → get j m ≢ none → IsSwept j (evict_each m fs)
unfolding evict_each get
evict_each-listed j [] fs listed = absurd (listed refl)
evict_each-listed j ((id, s) ∷ m) fs listed = elim (Bool-cases (text_beq id j)) [
  | inl same ↦
      evict_each-IsSwept j m (evict_one id fs) (
        subst (λ k. IsSwept k (evict_one id fs)) ((text_beq_iff id j).0 same)
          (evict_one_self id fs))
  | inr other ↦ evict_each-listed j m (evict_one id fs) (ground arith)
]

-- EvictAllStagedFiles leaves only files that are open, and none of them has a tile.
pub evict_all_staged_files-IsSwept : (j : Text) (fs : Fs) → IsSwept j (evict_all_staged_files fs)
unfolding evict_all_staged_files
evict_all_staged_files-IsSwept j fs = elim (Option-cases (get j fs.staged_files)) [
  | inl gone ↦ evict_each-IsSwept j fs.staged_files fs (λ s e. absurd (ground arith))
  | inr (s, e) ↦ evict_each-listed j fs.staged_files fs (ground arith)
]
