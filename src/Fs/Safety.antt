-- ===== src/Fs/Safety.antt =====
-- internal/fs/fs_fuse.go: what holds after any sequence of calls that starts from the empty file system.
use fuse_stream_mvp.Base.{
  ℕ, suc, ◌+◌, ◌<◌, ◌≡◌, refl, ◌≢◌, inl, inr, subst, Bool, true, false, some, List, [], ◌∷◌, arith,
  length, Bool-cases, ◌↔◌,
}
use fuse_stream_mvp.Base.Maps.{Map, Text, text_beq_iff, text_beq_refl, get, nat_eq, text_eq, IsMap}
use fuse_stream_mvp.Base.Words.{is_pos32}
use fuse_stream_mvp.Fs.{
  Fs, Staged, Handle, open_file, release, evict_staged_file, evict_all_staged_files,
  has_active_uploads,
}
use fuse_stream_mvp.Fs.Stage.{Request, Env, stage_file}
use fuse_stream_mvp.Fs.Handles.{count, count-le-length, count-delete}
use fuse_stream_mvp.Fs.Invariant.{
  Inv, int32_limit, evict_staged_file-Inv, evict_all_staged_files-Inv,
}
use fuse_stream_mvp.Fs.Calls.{open_file-Inv, release-Inv, later-Inv, handle-staged}
use fuse_stream_mvp.Fs.Runs.{stage_file-Inv}

pub data Call : Type 0 where
  calls_stage_file : Request → Env → Call
  calls_open : Text → Call
  calls_release : ℕ → Call
  calls_evict_staged_file : Text → Call
  calls_evict_all_staged_files : Call

abbrev pub step : Call → Fs → Fs
step (calls_stage_file r env) fs = (stage_file r env fs).0
step (calls_open path) fs = (open_file path fs).0
step (calls_release fh) fs = (release fh fs).0
step (calls_evict_staged_file id) fs = evict_staged_file id fs
step calls_evict_all_staged_files fs = evict_all_staged_files fs

unfoldable pub run : List Call → Fs → Fs
run [] fs = fs
run (c ∷ cs) fs = run cs (step c fs)

-- `newFS`
unfoldable pub new_fs : Bool → Bool → Fs
new_fs temp_file_mode debug_skip_eviction = record {
  staged_files = [];
  stores = [];
  next_fh = 1;
  handles = [];
  tasks = [];
  sleep_prevented = false;
  temp_file_mode = temp_file_mode;
  debug_skip_eviction = debug_skip_eviction;
}

step-Inv : (n : ℕ) (c : Call) (fs : Fs) → suc n < int32_limit → Inv n fs → Inv (suc n) (step c fs)
step-Inv n (calls_stage_file r env) fs small v =
    later-Inv n _ (stage_file-Inv n r env fs (omega arith) v)
step-Inv n (calls_open path) fs small v = open_file-Inv n path fs small v
step-Inv n (calls_release fh) fs small v = later-Inv n _ (release-Inv n fh fs (omega arith) v)
step-Inv n (calls_evict_staged_file id) fs small v =
    later-Inv n _ (evict_staged_file-Inv n id fs (omega arith) v)
step-Inv n calls_evict_all_staged_files fs small v =
    later-Inv n _ (evict_all_staged_files-Inv n fs (omega arith) v)

pub new_fs-Inv : (mode skip : Bool) → Inv 0 (new_fs mode skip)
unfolding new_fs get count
new_fs-Inv mode skip = record {
  counted = λ id s e. ground arith;
  known = λ id e. refl;
  distinct = tt;
  unique = tt;
  fresh = λ fh h e. ground arith;
  few = omega arith;
  next = omega arith;
}

-- Fewer than 2^31 calls keep the invariant.
pub run-Inv :
    (n : ℕ) (calls : List Call) (fs : Fs)
    → n + length calls < int32_limit
    → Inv n fs
    → Inv (n + length calls) (run calls fs)
unfolding run
run-Inv n [] fs small v = subst (λ k. Inv k fs) (omega arith) v
run-Inv n (c ∷ cs) fs small v =
    subst (λ k. Inv k (run cs (step c fs))) (omega arith)
      (run-Inv (suc n) cs (step c fs) (omega arith) (step-Inv n c fs (omega arith) v))

-- The state after some calls on a new file system.
abbrev pub after : Bool → Bool → List Call → Fs
after mode skip calls = run calls (new_fs mode skip)

pub after-Inv :
    (mode skip : Bool) (calls : List Call)
    → length calls < int32_limit
    → Inv (length calls) (after mode skip calls)
after-Inv mode skip calls small =
    subst (λ k. Inv k (after mode skip calls)) (omega arith)
      (run-Inv 0 calls (new_fs mode skip) (omega arith) (new_fs-Inv mode skip))

-- A file with a handle counts it, and the count is positive.
handle-counted :
    (n fh : ℕ) (h : Handle) (s : Staged) (fs : Fs)
    → n < int32_limit
    → Inv n fs
    → get fh fs.handles ≡ some h
    → get h.staged fs.staged_files ≡ some s
    → (s.open_ref ≡ count h.staged fs.handles) × (is_pos32 s.open_ref ≡ true)
handle-counted n fh h s fs small v e f = ground (
  arith,
  (v.counted h.staged s f).0,
  count-le-length h.staged fs.handles,
  v.few,
  count-delete h.staged fh h fs.handles v.unique e,
  text_beq_refl h.staged,
)

-- After fewer than 2^31 calls on a new file system, a handle in use is one of a file that is still
-- staged, and this file's openRef, which is positive as an int32, is the number of its handles.
pub open_handle_is_staged :
    (mode skip : Bool) (calls : List Call) (fh : ℕ) (h : Handle)
    → length calls < int32_limit
    → get fh (after mode skip calls).handles ≡ some h
    → (s : Staged) × (get h.staged (after mode skip calls).staged_files ≡ some s)
      × (s.open_ref ≡ count h.staged (after mode skip calls).handles)
      × (is_pos32 s.open_ref ≡ true)
open_handle_is_staged mode skip calls fh h small e =
    let fs = after mode skip calls in
    let v = after-Inv mode skip calls small in
    let (s, f) = handle-staged (length calls) fh h fs v e in
    let (same, pos) = handle-counted (length calls) fh h s fs small v e f in (s, f, same, pos)

-- An entry of a map is what a lookup finds.
active-find :
    (m : Map Text Staged)
    → IsMap m
    → has_active_uploads m ≡ true
    → (id : Text) × (s : Staged) × (get id m ≡ some s) × (is_pos32 s.open_ref ≡ true)
unfolding has_active_uploads get
active-find [] u e = absurd (ground arith)
active-find ((id, s) ∷ m) u e = elim (Bool-cases (is_pos32 s.open_ref)) [
  | inl on ↦ (id, s, rw text_beq_refl refl, on)
  | inr off ↦
      let (j, t, f, on) = active-find m u.1 (ground arith) in
      (j, t, ground (arith, text_beq_iff id j), on)
]

find-active :
    (m : Map Text Staged) (id : Text) (s : Staged)
    → get id m ≡ some s
    → is_pos32 s.open_ref ≡ true
    → has_active_uploads m ≡ true
unfolding has_active_uploads get
find-active [] id s e on = absurd (ground arith)
find-active ((j, t) ∷ m) id s e on = ground (arith, find-active m id s)

pub count-eq-zero_of_empty : (id : Text) (m : Map ℕ Handle) → m ≡ [] → count id m ≡ 0
unfolding count
count-eq-zero_of_empty id m e = rw e refl

nonempty-get : (m : Map ℕ Handle) → m ≢ [] → (fh : ℕ) × (h : Handle) × (get fh m ≡ some h)
unfolding get
nonempty-get [] used = absurd (used refl)
nonempty-get ((fh, h) ∷ m) used = (fh, h, ground arith)

-- After fewer than 2^31 calls on a new file system, HasActiveUploads says whether any handle is open.
pub has_active_uploads_iff :
    (mode skip : Bool) (calls : List Call)
    → length calls < int32_limit
    → (has_active_uploads (after mode skip calls).staged_files ≡ true)
      ↔ ((after mode skip calls).handles ≢ [])
has_active_uploads_iff mode skip calls small =
    let fs = after mode skip calls in
    let v = after-Inv mode skip calls small in
    (
      λ on closed.
          let (id, s, f, pos) = active-find fs.staged_files v.distinct on in
          absurd
            (ground (arith, (v.counted id s f).0, count-eq-zero_of_empty id fs.handles closed)),
      λ in_use.
          let (fh, h, e) = nonempty-get fs.handles in_use in
          let (s, f) = handle-staged (length calls) fh h fs v e in
          find-active fs.staged_files h.staged s f
            (handle-counted (length calls) fh h s fs small v e f).1,
    )
